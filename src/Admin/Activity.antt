-- ===== src/Admin/Activity.antt =====
-- The console's feed (`_activity_summary` and `activity_feed` of app/admin/service.py).
use genesys_cx_demo_harness.Base.{
  ℕ, Text, lit, text_eq, show_int, Dict, lookup, List, ◌++◌, map, Option, none, some, is_empty,
  if◌then◌else◌,
}
use genesys_cx_demo_harness.Store.{
  Tenant, Event, Scalar, text, int, Db, kind_interaction, kind_csat, kind_network_degraded,
}
use genesys_cx_demo_harness.Events.{recent_events}

pub record Activity : Type 0 where
  pub kind : Text
  pub channel : Text
  pub conversation_ref : Text
  pub summary : Text
  pub occurred_at : ℕ

-- `str(value)`
abbrev show_scalar : Scalar → Text
show_scalar (text t) = t
show_scalar (int n) = show_int n

-- `payload.get(key, default)` in an f-string
abbrev shown_or : Text → Dict Scalar → Text → Text
shown_or key payload default = elim (lookup key payload) [ none ↦ default | some v ↦ show_scalar v ]

-- `f"{base} — “{comment}”" if comment else base`; an integer is truthy unless it is zero.
unfoldable with_comment : Text → Option Scalar → Text
with_comment base none = base
with_comment base (some (text t)) = if is_empty t then base else base ++ lit " — “" ++ t ++ lit "”"
with_comment base (some (int n)) =
    if text_eq (show_int n) (lit "0") then base else base ++ lit " — “" ++ show_int n ++ lit "”"

unfoldable activity_summary : Event → Text
unfolding with_comment
activity_summary e =
    if text_eq e.kind kind_interaction
    then shown_or (lit "kind") e.payload (lit "interaction") ++ lit " on " ++ e.channel
    else (if text_eq e.kind kind_csat
        then with_comment (lit "score " ++ shown_or (lit "score") e.payload (lit "?") ++ lit "/5")
            (lookup (lit "comment") e.payload)
        else (if text_eq e.kind kind_network_degraded
            then shown_or (lit "fault_type") e.payload (lit "fault")
              ++ lit " → "
              ++ shown_or (lit "recommended_action") e.payload (lit "")
            else e.kind))

unfoldable pub activity_feed : Db → Tenant → ℕ → List Activity
unfolding activity_summary
activity_feed db tenant limit =
    map
      (λ (e : Event). record {
        kind = e.kind;
        channel = e.channel;
        conversation_ref = e.conversation_ref;
        summary = activity_summary e;
        occurred_at = e.occurred_at;
      })
      (recent_events db tenant limit none)
