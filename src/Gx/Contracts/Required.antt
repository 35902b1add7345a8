-- ===== src/Gx/Contracts/Required.antt =====
-- What a contract that was built asks of its caller.
use genesys_cx_demo_harness.Platform.{Platform}
