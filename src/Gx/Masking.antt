-- ===== src/Gx/Masking.antt =====
-- Masking for responses (app/gx/masking.py). A text is a list of code points; `str.split` and
-- `str.partition` are written out.
pub mod Blind
use genesys_cx_demo_harness.Base.{
  ℕ, zero, suc, Bool, true, false, not, Text, lit, ℤ, pos, pos_part, List, [], ◌∷◌, ◌++◌, map, take,
  is_empty, ◌||◌, get_or, ◌==◌, if◌then◌else◌,
}
use genesys_cx_demo_harness.Platform.{Platform}
use genesys_cx_demo_harness.Store.{MaskOverride}

-- A merged configuration; `max(0, n)` is the positive part of n.
pub record Mask : Type 0 where
  pub reveal : ℕ
  pub mask_char : Text
  pub mask_length : ℕ

abbrev pub layer_mask : ℤ → Text → ℤ → MaskOverride → Mask
layer_mask reveal char len o = record {
  reveal = pos_part (get_or o.reveal_chars reveal);
  mask_char = get_or o.mask_char char;
  mask_length = pos_part (get_or o.mask_length len);
}

-- `DEFAULT_MASKED_NAME` with the tenant's override.
abbrev pub name_mask : MaskOverride → Mask
name_mask = layer_mask (pos 1) (lit "*") (pos 3)

-- `DEFAULT_MASKED_EMAIL` with the tenant's override.
abbrev pub email_mask : MaskOverride → Mask
email_mask = layer_mask (pos 1) (lit "•") (pos 4)

-- `s * n`
unfoldable pub repeat : ℕ → Text → Text
repeat zero s = []
repeat (suc n) s = s ++ repeat n s

-- `token[:reveal] + mask_char * mask_length`
unfoldable pub mask_token : Mask → Text → Text
mask_token m token = take m.reveal token ++ repeat m.mask_length m.mask_char

-- `" ".join(tokens)`
unfoldable pub join_spaced : List Text → Text
join_spaced [] = []
join_spaced (t ∷ []) = t
join_spaced (t ∷ u ∷ ts) = t ++ b' ' ∷ join_spaced (u ∷ ts)

-- The text up to the first `c`, whether there is one, and what follows it.
unfoldable pub partition_at : ℕ → Text → Text × Bool × Text
partition_at c [] = ([], false, [])
partition_at c (d ∷ s) =
    let (before, found, after) = partition_at c s in
    if d == c then ([], true, s) else (d ∷ before, found, after)

-- `str.split()` with the token under way, `word`.
module _ ⦃platform : Platform⦄ where
  unfoldable pub split_from : Text → Text → List Text
  split_from word [] = if is_empty word then [] else word ∷ []
  split_from word (c ∷ s) =
      let next = split_from [] s in
      let longer = split_from (word ++ c ∷ []) s in
      if platform.is_space c then (if is_empty word then next else word ∷ next) else longer

  unfoldable pub mask_name : Text → MaskOverride → Text
  mask_name display_name o =
      join_spaced (map (mask_token (name_mask o)) (split_from [] display_name))

unfoldable pub mask_email : Text → MaskOverride → Text
mask_email email o =
    let (before, at, domain) = partition_at b'@' email in
    let m = email_mask o in
    if not at || is_empty before
    then []
    else take m.reveal before ++ (repeat m.mask_length m.mask_char ++ b'@' ∷ domain)
