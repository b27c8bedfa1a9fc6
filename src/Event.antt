-- ===== src/Event.antt =====
-- src/event.rs: the bounded prefix of a frame that a decode failure keeps.
use signal_fish_client_rust.Common.{
  ℕ, zero, suc, ◌≤◌, ◌≡◌, refl, sym, ap, subst, Bool, true, false, not, ◌&&◌, List, [], ◌∷◌, length,
  leb, ltb, if◌then◌else◌, arith,
}
mod Examples

-- A byte of UTF-8 that goes on with a character.
abbrev pub is_continuation : ℕ → Bool
is_continuation b = leb 128 b && ltb b 192

abbrev pub ends_before : ℕ → List ℕ → Bool
ends_before zero [] = true
ends_before zero (b ∷ s) = not (is_continuation b)
ends_before (suc i) [] = false
ends_before (suc i) (b ∷ s) = ends_before i s

-- `str::is_char_boundary` on the bytes of a text: its start, its end, or before a first byte.
abbrev pub is_char_boundary : ℕ → List ℕ → Bool
is_char_boundary zero s = true
is_char_boundary (suc i) s = ends_before (suc i) s

abbrev pub take : ℕ → List ℕ → List ℕ
take zero s = []
take (suc n) [] = []
take (suc n) (b ∷ s) = b ∷ take n s

-- The loop over `end`.
unfoldable pub step_back : (end : ℕ) → List ℕ → ℕ
step_back zero s = zero
step_back (suc end) s =
    let rest = step_back end s in if is_char_boundary (suc end) s then suc end else rest

-- `s.get(..end).unwrap_or_default()`
abbrev pub get_prefix : (end : ℕ) → List ℕ → List ℕ
get_prefix end s = if is_char_boundary end s then take end s else []

unfoldable pub truncate_on_char_boundary : List ℕ → (max_bytes : ℕ) → List ℕ
unfolding step_back
truncate_on_char_boundary s max_bytes =
    if leb (length s) max_bytes then s else get_prefix (step_back max_bytes s) s

take-length : (s : List ℕ) → take (length s) s ≡ s
take-length [] = refl
take-length (b ∷ s) = ap (λ rest. b ∷ rest) (take-length s)

length-take : (n : ℕ) (s : List ℕ) → length (take n s) ≤ n
length-take zero s = ground arith
length-take (suc n) [] = ground arith
length-take (suc n) (b ∷ s) = ground (arith, length-take n s)

ends_before-length : (s : List ℕ) → ends_before (length s) s ≡ true
ends_before-length [] = refl
ends_before-length (b ∷ s) = ends_before-length s

is_char_boundary-length : (s : List ℕ) → is_char_boundary (length s) s ≡ true
is_char_boundary-length [] = refl
is_char_boundary-length (b ∷ s) = ends_before-length (b ∷ s)

ends_before-within : (n : ℕ) (s : List ℕ) → ends_before n s ≡ true → n ≤ length s
ends_before-within zero s h = ground arith
ends_before-within (suc n) [] h = absurd (ground arith)
ends_before-within (suc n) (b ∷ s) h = ground (arith, ends_before-within n s h)

is_char_boundary-within : (n : ℕ) (s : List ℕ) → is_char_boundary n s ≡ true → n ≤ length s
is_char_boundary-within zero s h = ground arith
is_char_boundary-within (suc n) s h = ends_before-within (suc n) s h

step_back-is_char_boundary : (max : ℕ) (s : List ℕ) → is_char_boundary (step_back max s) s ≡ true
unfolding step_back
step_back-is_char_boundary zero s = refl
step_back-is_char_boundary (suc end) s =
    chosen (step_back-is_char_boundary end s) (is_char_boundary (suc end) s) refl
  where
    chosen :
        is_char_boundary (step_back end s) s ≡ true
        → (b : Bool) → is_char_boundary (suc end) s ≡ b
        → is_char_boundary (if b then suc end else step_back end s) s ≡ true
    chosen rest true e = e
    chosen rest false e = rest

step_back-below : (max : ℕ) (s : List ℕ) → step_back max s ≤ max
unfolding step_back
step_back-below zero s = ground arith
step_back-below (suc end) s = ground (arith, step_back-below end s)

step_back-last :
    (max n : ℕ) (s : List ℕ) → n ≤ max → is_char_boundary n s ≡ true → n ≤ step_back max s
unfolding step_back
step_back-last zero n s l h = l
step_back-last (suc end) n s l h = grind (arith, step_back-last end n s)

-- The prefix ends at a character boundary, is not longer than the limit, and no boundary within the
-- limit lies behind its end, whatever the bytes of the text are.
pub truncate_on_char_boundary-longest :
    (s : List ℕ) (max : ℕ)
    → (end : ℕ) × (truncate_on_char_boundary s max ≡ take end s)
      × (is_char_boundary end s ≡ true)
      × (length (truncate_on_char_boundary s max) ≤ max)
      × ((n : ℕ) → n ≤ max → is_char_boundary n s ≡ true → n ≤ end)
unfolding truncate_on_char_boundary
truncate_on_char_boundary-longest s max = chosen (leb (length s) max) refl
  where
    cut : get_prefix (step_back max s) s ≡ take (step_back max s) s
    cut = ap (λ b. if b then take (step_back max s) s else []) (step_back-is_char_boundary max s)

    short : length (get_prefix (step_back max s) s) ≤ max
    short =
        subst (λ t. length t ≤ max) (sym cut)
          (ground (arith, length-take (step_back max s) s, step_back-below max s))

    chosen :
        (b : Bool)
        → leb (length s) max ≡ b
        → (end : ℕ) × ((if b then s else get_prefix (step_back max s) s) ≡ take end s)
          × (is_char_boundary end s ≡ true)
          × (length (if b then s else get_prefix (step_back max s) s) ≤ max)
          × ((n : ℕ) → n ≤ max → is_char_boundary n s ≡ true → n ≤ end)
    chosen true e = (
      length s,
      sym (take-length s),
      is_char_boundary-length s,
      ground arith,
      λ n l h. is_char_boundary-within n s h,
    )
    chosen false e = (
      step_back max s,
      cut,
      step_back-is_char_boundary max s,
      short,
      λ n l h. step_back-last max n s l h,
    )
