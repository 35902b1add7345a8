-- ===== src/Gx/Masking/Blind.antt =====
-- What a masked address does not tell.
use genesys_cx_demo_harness.Base.{
  ℕ, ◌≡◌, refl, true, false, Text, [], ◌∷◌, ◌++◌, take, any, is_empty, ◌==◌, arith,
}
use genesys_cx_demo_harness.Store.{MaskOverride}
use genesys_cx_demo_harness.Gx.Masking.{email_mask, partition_at, mask_email}

-- A text without `c` is split at the `c` that follows it.
partition_at-first :
    (c : ℕ) (before after : Text)
    → any (λ d. d == c) before ≡ false
    → partition_at c (before ++ c ∷ after) ≡ (before, true, after)
unfolding partition_at
partition_at-first c [] after h = ground arith
partition_at-first c (d ∷ before) after h =
    let here : (d == c) ≡ false = ground arith in
    let there : any (λ x. x == c) before ≡ false = ground arith in
    rw (partition_at-first c before after there, here) refl

-- Two addresses of one domain, whose local parts are not empty, have no at sign and begin with the
-- same revealed characters, have the same mask.
pub mask_email-blind :
    (o : MaskOverride) (x y domain : Text)
    → any (λ c. c == b'@') x ≡ false
    → any (λ c. c == b'@') y ≡ false
    → is_empty x ≡ false
    → is_empty y ≡ false
    → take (email_mask o).reveal x ≡ take (email_mask o).reveal y
    → mask_email (x ++ b'@' ∷ domain) o ≡ mask_email (y ++ b'@' ∷ domain) o
unfolding mask_email
mask_email-blind o x y domain plain_x plain_y some_x some_y same =
    rw
      (
        partition_at-first b'@' x domain plain_x,
        partition_at-first b'@' y domain plain_y,
        some_x,
        some_y,
        same,
      )
      refl
