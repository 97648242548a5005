-- ===== src/Xray/Config/Removal.antt =====
-- The removal loop of ApplyAPI in backend/xray/config.go: what it does to a list with one inbound
-- of its tag, with none, and with two at the end.
use node_nats.Prelude.{
  ℕ, suc, zero, ◌+◌, ◌-◌, ◌≤◌, ◌≡◌, refl, ap, sym, ◌∙◌, List, [], ◌∷◌, ◌++◌, true, false, some,
  arith, get_elem?, take, drop, length, length-append, All, All-append, ok, panic,
}
use mathlib.Core.List.{append_assoc}
use node_nats.Xray.Inbound.{Inbound}
use node_nats.Xray.Config.{is_api, at_api, shift_out, remove_from, remove_api_inbound}

module _ {A : Type 0} where
  get_elem?-append :
      (pre : List A) (x : A) (xs : List A) → get_elem? (pre ++ x ∷ xs) (length pre) ≡ some x
  get_elem?-append [] x xs = refl
  get_elem?-append (p ∷ pre) x xs = get_elem?-append pre x xs

  take-append : (xs ys : List A) → take (length xs) (xs ++ ys) ≡ xs
  take-append [] ys = refl
  take-append (x ∷ xs) ys = ap (◌∷◌ x) (take-append xs ys)

  drop-append : (xs ys : List A) (k : ℕ) → drop (length xs + k) (xs ++ ys) ≡ drop k ys
  drop-append [] ys k = let e : 0 + k ≡ k = omega arith in ap (λ n. drop n ys) e
  drop-append (x ∷ xs) ys k =
      let e : suc (length xs) + k ≡ suc (length xs + k) = omega arith in
      ap (λ n. drop n (x ∷ (xs ++ ys))) e ∙ drop-append xs ys k

  take_all : (xs : List A) → take (length xs) xs ≡ xs
  take_all [] = refl
  take_all (x ∷ xs) = ap (◌∷◌ x) (take_all xs)

-- No inbound of the API's tag.
abbrev pub NoApi : List Inbound → Type 0
NoApi = All (λ i. is_api i ≡ false)

NoApi-drop : (k : ℕ) (xs : List Inbound) → NoApi xs → NoApi (drop k xs)
NoApi-drop zero xs h = h
NoApi-drop (suc k) [] h = tt
NoApi-drop (suc k) (x ∷ xs) h = NoApi-drop k xs h.1

at_api-drop : (i : ℕ) (arr : List Inbound) → NoApi (drop i arr) → at_api (get_elem? arr i) ≡ false
at_api-drop i [] h = refl
at_api-drop zero (x ∷ arr) h = h.0
at_api-drop (suc i) (x ∷ arr) h = at_api-drop i arr h

drop-suc : (i : ℕ) (arr : List Inbound) → NoApi (drop i arr) → NoApi (drop (suc i) arr)
drop-suc i [] h = tt
drop-suc zero (x ∷ arr) h = h.1
drop-suc (suc i) (x ∷ arr) h = drop-suc i arr h

-- From a place past which the array holds no such inbound, nothing more is removed.
remove_from-NoApi :
    (rounds i len : ℕ) (arr : List Inbound)
    → NoApi (drop i arr)
    → remove_from rounds i len arr ≡ ok (take len arr)
unfolding remove_from
remove_from-NoApi zero i len arr h = refl
remove_from-NoApi (suc rounds) i len arr h =
    ground (arith, at_api-drop i arr h, remove_from-NoApi rounds (suc i) len arr (drop-suc i arr h))

step_past :
    (r i len : ℕ) (arr : List Inbound)
    → at_api (get_elem? arr i) ≡ false
    → remove_from (suc r) i len arr ≡ remove_from r (suc i) len arr
unfolding remove_from
step_past r i len arr h = rw (h, remove_from)

step_out :
    (r i len : ℕ) (arr : List Inbound)
    → at_api (get_elem? arr i) ≡ true
    → suc i ≤ len
    → remove_from (suc r) i len arr ≡ remove_from r (suc i) (len - 1) (shift_out i len arr)
unfolding remove_from
step_out r i len arr h fits = ground arith

-- The loop walks past a stretch without such an inbound.
skip :
    (pre xs tail arr : List Inbound) (r len : ℕ)
    → arr ≡ pre ++ (xs ++ tail)
    → NoApi xs
    → remove_from (length xs + r) (length pre) len arr
      ≡ remove_from r (length pre + length xs) len arr
skip pre [] tail arr r len e h =
    let e₁ : 0 + r ≡ r = omega arith in
    let e₂ : length pre + 0 ≡ length pre = omega arith in
    ap (λ n. remove_from n (length pre) len arr) e₁ ∙ ap (λ n. remove_from r n len arr) (sym e₂)
skip pre (x ∷ xs) tail arr r len e (hx, h) =
    let e₁ : suc (length xs) + r ≡ suc (length xs + r) = omega arith in
    let e₂ : length (pre ++ x ∷ []) ≡ suc (length pre) =
      omega (arith, length-append pre (x ∷ [])) in
    let e₃ : suc (length pre) + length xs ≡ length pre + suc (length xs) = omega arith in
    let at : at_api (get_elem? arr (length pre)) ≡ false =
      rw (e, get_elem?-append pre x (xs ++ tail)) hx in
    let ih =
      skip (pre ++ x ∷ []) xs tail arr r len (e ∙ sym (append_assoc pre (x ∷ []) (xs ++ tail))) h in
    ap (λ n. remove_from n (length pre) len arr) e₁
    ∙ step_past (length xs + r) (length pre) len arr at
    ∙ ap (λ n. remove_from (length xs + r) n len arr) (sym e₂)
    ∙ ih
    ∙ ap (λ n. remove_from r (n + length xs) len arr) e₂
    ∙ ap (λ n. remove_from r n len arr) e₃

rest_NoApi :
    (a : Inbound) (ys : List Inbound) → NoApi ys → NoApi (drop 1 (ys ++ drop (length ys) (a ∷ ys)))
rest_NoApi a [] h = tt
rest_NoApi a (y ∷ ys) (hy, h) =
    All-append _ ys (drop (length ys) (y ∷ ys)) h (NoApi-drop (length ys) (y ∷ ys) (hy, h))

module _ (pre : List Inbound) (a : Inbound) (ys : List Inbound) where
  abbrev whole : List Inbound
  whole = pre ++ a ∷ ys

  length-whole : length whole ≡ length pre + suc (length ys)
  length-whole = length-append pre (a ∷ ys)

  shifted : List Inbound
  shifted = pre ++ (ys ++ drop (length ys) (a ∷ ys))

  shift_out-whole : shift_out (length pre) (length whole) whole ≡ shifted
  unfolding shifted
  shift_out-whole =
      let e₁ : suc (length pre) ≡ length pre + 1 = omega arith in
      let e₂ : length whole - 1 ≡ length pre + length ys = omega (arith, length-whole) in
      rw (
        take-append pre (a ∷ ys),
        take_all whole,
        e₁,
        e₂,
        drop-append pre (a ∷ ys) 1,
        drop-append pre (a ∷ ys) (length ys),
      )

  drop-shifted : NoApi ys → NoApi (drop (suc (length pre)) shifted)
  unfolding shifted
  drop-shifted h =
      let e₁ : suc (length pre) ≡ length pre + 1 = omega arith in
      rw (e₁, drop-append pre (ys ++ drop (length ys) (a ∷ ys)) 1) (rest_NoApi a ys h)

  take-shifted : take (length whole - 1) shifted ≡ pre ++ ys
  unfolding shifted
  take-shifted =
      let e : length whole - 1 ≡ length (pre ++ ys) =
        omega (arith, length-whole, length-append pre ys) in
      rw (e, ← append_assoc pre ys (drop (length ys) (a ∷ ys)), take-append)

  -- The rounds up to the first inbound of the API's tag, and the one that takes it out.
  first_out :
      is_api a ≡ true
      → NoApi pre
      → remove_api_inbound whole
        ≡ remove_from (length ys) (suc (length pre)) (length whole - 1) shifted
  unfolding remove_api_inbound
  first_out tag hpre =
      let fits : suc (length pre) ≤ length whole = omega (arith, length-whole) in
      let start : 0 + length pre ≡ length pre = omega arith in
      ap (λ n. remove_from n 0 (length whole) whole) length-whole
      ∙ skip [] pre (a ∷ ys) whole (suc (length ys)) (length whole) refl hpre
      ∙ ap (λ n. remove_from (suc (length ys)) n (length whole) whole) start
      ∙ step_out (length ys) (length pre) (length whole) whole (rw (get_elem?-append pre a ys) tag)
          fits
      ∙ ap (remove_from (length ys) (suc (length pre)) (length whole - 1)) shift_out-whole

  -- A list with one inbound of the API's tag loses that one, and nothing else.
  pub remove_api_inbound-one :
      is_api a ≡ true → NoApi pre → NoApi ys → remove_api_inbound whole ≡ ok (pre ++ ys)
  remove_api_inbound-one tag hpre hys =
      first_out tag hpre
      ∙ remove_from-NoApi (length ys) (suc (length pre)) (length whole - 1) shifted
          (drop-shifted hys)
      ∙ ap ok take-shifted

-- A list with no inbound of the API's tag stays as it is.
pub remove_api_inbound-none :
    (inbounds : List Inbound) → NoApi inbounds → remove_api_inbound inbounds ≡ ok inbounds
unfolding remove_api_inbound
remove_api_inbound-none inbounds h =
    remove_from-NoApi (length inbounds) 0 (length inbounds) inbounds h ∙ ap ok (take_all inbounds)

step_panic :
    (r i len : ℕ) (arr : List Inbound)
    → at_api (get_elem? arr i) ≡ true
    → len ≤ i
    → remove_from (suc r) i len arr ≡ panic
unfolding remove_from
step_panic r i len arr h out = ground arith

-- ApplyAPI's loop panics where the last two inbounds, and no other, have the API's tag.
pub remove_api_inbound_panics :
    (pre : List Inbound) (a b : Inbound)
    → NoApi pre
    → is_api a ≡ true
    → is_api b ≡ true
    → remove_api_inbound (pre ++ a ∷ b ∷ []) ≡ panic
unfolding shifted
remove_api_inbound_panics pre a b h ha hb =
    let len = length (pre ++ a ∷ b ∷ []) in
    let size : len ≡ length pre + 2 = omega (arith, length-append pre (a ∷ b ∷ [])) in
    let place : suc (length pre) ≡ length (pre ++ b ∷ []) =
      omega (arith, length-append pre (b ∷ [])) in
    let at : at_api (get_elem? (pre ++ b ∷ b ∷ []) (suc (length pre))) ≡ true =
      rw (place, ← append_assoc pre (b ∷ []) (b ∷ []), get_elem?-append) hb in
    first_out pre a (b ∷ []) ha h
    ∙ step_panic 0 (suc (length pre)) (len - 1) (pre ++ b ∷ b ∷ []) at (omega arith)
