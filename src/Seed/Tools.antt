-- ===== src/Seed/Tools.antt =====
-- What the seeders take from Python and its packages: `uuid.uuid5` in the product's namespace, the
-- bytes of one in the DNS namespace, `str.format` with one named argument (`none` is the error it
-- raises), Faker's names for a locale and a seed, and the pack files.
use genesys_cx_demo_harness.Base.{ℕ, Text, List, [], ◌∷◌, ◌++◌, Option}
use genesys_cx_demo_harness.Seed.Pack.{Pack}

pub record SeedTools : Type 0 where
  pub uuid5 : Text → ℕ
  pub dns_uuid5_bytes : Text → List ℕ
  pub format_first_name : Text → Text → Option Text
  pub format_index : Text → ℕ → Option Text
  pub fake_name : Text → ℕ → ℕ → Text
  pub pack_file : Text → Option Pack

-- `":".join(parts)`
unfoldable join_colon : List Text → Text
join_colon [] = []
join_colon (p ∷ []) = p
join_colon (p ∷ q ∷ ps) = p ++ b':' ∷ join_colon (q ∷ ps)

-- `_key(*parts)`
unfoldable pub key : ⦃tools : SeedTools⦄ → List Text → ℕ
unfolding join_colon
key ⦃tools⦄ parts = tools.uuid5 (join_colon parts)
