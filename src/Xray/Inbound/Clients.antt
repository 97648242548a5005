-- ===== src/Xray/Inbound/Clients.antt =====
-- A slice of pointers to accounts, as the settings of an inbound hold it: the loop that drops the
-- first client with an email, and what can be found after it and after an append.
use node_nats.Prelude.{
  String, ◌≡◌, refl, Option, none, some, List, [], ◌∷◌, ◌++◌, arith, str_eq, eq_iff, eq_refl,
  if◌then◌else◌, Result, ok, panic, ◌>>=◌,
}

-- The loops of updateUser and removeUser: the comparison of a nil pointer's email panics.
module _ {A : Type 0} (email_of : A → String) where
  unfoldable pub drop_client : String → List (Option A) → Result (List (Option A))
  drop_client email [] = ok []
  drop_client email (none ∷ clients) = panic
  drop_client email (some c ∷ clients) =
      let later = drop_client email clients >>= (λ kept. ok (some c ∷ kept)) in
      if str_eq (email_of c) email then ok clients else later

  -- The first client with an email.
  abbrev pub find_client : String → List (Option A) → Option A
  find_client email [] = none
  find_client email (none ∷ clients) = find_client email clients
  find_client email (some c ∷ clients) =
      if str_eq (email_of c) email then some c else find_client email clients

  -- No nil pointer, and no email twice.
  abbrev pub IsDistinct : List (Option A) → Type 0
  IsDistinct [] = Unit
  IsDistinct (none ∷ clients) = ⊥
  IsDistinct (some c ∷ clients) = (find_client (email_of c) clients ≡ none) × IsDistinct clients

  -- The clients without an email: what dropping means where no email comes twice.
  abbrev pub without : String → List (Option A) → List (Option A)
  without email [] = []
  without email (none ∷ clients) = none ∷ without email clients
  without email (some c ∷ clients) =
      let later = without email clients in
      if str_eq (email_of c) email then later else some c ∷ later

  pub find_client-without :
      (email j : String) (clients : List (Option A))
      → find_client j (without email clients)
        ≡ (if str_eq email j then none else find_client j clients)
  find_client-without email j [] = ground arith
  find_client-without email j (none ∷ clients) = find_client-without email j clients
  find_client-without email j (some c ∷ clients) = ground (
    arith,
    find_client-without email j clients,
    eq_iff (email_of c) email,
    eq_iff (email_of c) j,
    eq_iff email j,
  )

  without_absent :
      (email : String) (clients : List (Option A))
      → find_client email clients ≡ none
      → without email clients ≡ clients
  without_absent email [] h = refl
  without_absent email (none ∷ clients) h = rw (without_absent email clients h)
  without_absent email (some c ∷ clients) h = ground (arith, without_absent email clients)

  pub drop_client-without :
      (email : String) (clients : List (Option A))
      → IsDistinct clients
      → drop_client email clients ≡ ok (without email clients)
  unfolding drop_client
  drop_client-without email [] h = refl
  drop_client-without email (none ∷ clients) h = absurd h
  drop_client-without email (some c ∷ clients) (fresh, h) = ground (
    arith,
    drop_client-without email clients h,
    without_absent email clients,
    eq_iff (email_of c) email,
  )

  pub without-IsDistinct :
      (email : String) (clients : List (Option A))
      → IsDistinct clients
      → IsDistinct (without email clients)
  without-IsDistinct email [] h = tt
  without-IsDistinct email (none ∷ clients) h = absurd h
  without-IsDistinct email (some c ∷ clients) (fresh, h) =
      ground
        (arith, without-IsDistinct email clients h, find_client-without email (email_of c) clients)

  pub find_client-append :
      (j : String) (clients : List (Option A)) (a : A)
      → find_client j (clients ++ some a ∷ []) ≡ (elim (find_client j clients) [
        | some c ↦ some c
        | none ↦ if str_eq (email_of a) j then some a else none
      ])
  find_client-append j [] a = refl
  find_client-append j (none ∷ clients) a = find_client-append j clients a
  find_client-append j (some c ∷ clients) a = ground (arith, find_client-append j clients a)

  append-IsDistinct :
      (clients : List (Option A)) (a : A)
      → IsDistinct clients
      → find_client (email_of a) clients ≡ none
      → IsDistinct (clients ++ some a ∷ [])
  append-IsDistinct [] a h fresh = (refl, tt)
  append-IsDistinct (none ∷ clients) a h fresh = absurd h
  append-IsDistinct (some c ∷ clients) a (first, h) fresh = ground (
    arith,
    append-IsDistinct clients a h,
    find_client-append (email_of c) clients a,
    eq_iff (email_of c) (email_of a),
    eq_iff (email_of a) (email_of c),
  )

  -- The clients after an update: the old ones without the account's email, and the account last.
  abbrev pub updated : A → List (Option A) → List (Option A)
  updated a clients = without (email_of a) clients ++ some a ∷ []

  pub find_client-updated :
      (a : A) (j : String) (clients : List (Option A))
      → find_client j (updated a clients)
        ≡ (if str_eq (email_of a) j then some a else find_client j clients)
  find_client-updated a j clients = ground (
    arith,
    find_client-append j (without (email_of a) clients) a,
    find_client-without (email_of a) j clients,
  )

  pub updated-IsDistinct :
      (a : A) (clients : List (Option A)) → IsDistinct clients → IsDistinct (updated a clients)
  updated-IsDistinct a clients h =
      append-IsDistinct (without (email_of a) clients) a (without-IsDistinct (email_of a) clients h)
        (ground
          (arith, find_client-without (email_of a) (email_of a) clients, eq_refl (email_of a)))
