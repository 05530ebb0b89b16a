-- ===== src/Gossip/History.antt =====
-- `History` of protocol/gossip: the identifiers of the recent messages of a topic, in slots of a
-- heartbeat each, the newest at the front.
use leanp2p.Prelude.{
  ℕ, zero, suc, ◌+◌, ◌≤◌, ◌<◌, ◌≡◌, refl, sym, ap, ◌∙◌, arith, List, [], ◌∷◌, ◌++◌, length,
  replicate,
}

module _ {A : Type 0} where
  -- The constructor; the caller asserts that there is a slot.
  unfoldable pub init : ℕ → List (List A)
  init slots = replicate slots []

  -- `front()` of a deque without slots is undefined; the model has a new slot there.
  unfoldable pub add : A → List (List A) → List (List A)
  add message_id [] = (message_id ∷ []) ∷ []
  add message_id (slot ∷ slots) = (slot ++ (message_id ∷ [])) ∷ slots

  -- `back()` and `pop_back()` of a deque.
  unfoldable pub back : List (List A) → List A
  back [] = []
  back (slot ∷ []) = slot
  back (slot ∷ next ∷ slots) = back (next ∷ slots)

  unfoldable pub pop_back : List (List A) → List (List A)
  pop_back [] = []
  pop_back (slot ∷ []) = []
  pop_back (slot ∷ next ∷ slots) = slot ∷ pop_back (next ∷ slots)

  -- The identifiers that leave, and the deque.
  unfoldable pub shift : List (List A) → List A × List (List A)
  unfolding back pop_back
  shift slots = (back slots, [] ∷ pop_back slots)

  unfoldable pub get : ℕ → List (List A) → List A
  get zero slots = []
  get (suc n) [] = []
  get (suc n) (slot ∷ slots) = slot ++ get n slots

  length-pop_back :
      (slots : List (List A)) → 0 < length slots → suc (length (pop_back slots)) ≡ length slots
  unfolding pop_back
  length-pop_back [] h = elim h [ ]
  length-pop_back (slot ∷ []) h = refl
  length-pop_back (slot ∷ next ∷ slots) h = ap suc (length-pop_back (next ∷ slots) (omega arith))

  length-shift : (slots : List (List A)) → 0 < length slots → length (shift slots).1 ≡ length slots
  unfolding shift
  length-shift slots h = length-pop_back slots h

  get-pop_back :
      (n : ℕ) (slots : List (List A)) → n < length slots → get n (pop_back slots) ≡ get n slots
  unfolding get pop_back
  get-pop_back zero slots h = refl
  get-pop_back (suc n) [] h = elim h [ ]
  get-pop_back (suc n) (slot ∷ []) h = absurd (omega arith)
  get-pop_back (suc n) (slot ∷ next ∷ slots) h =
      ap (λ r. slot ++ r) (get-pop_back n (next ∷ slots) (omega arith))

  -- The window of `n + 1` slots after a shift is the window of `n` slots before it.
  pub get-suc-shift :
      (n : ℕ) (slots : List (List A)) → n < length slots → get (suc n) (shift slots).1 ≡ get n slots
  unfolding get shift
  get-suc-shift n slots h = get-pop_back n slots h

  append_assoc : (xs ys zs : List A) → (xs ++ ys) ++ zs ≡ xs ++ (ys ++ zs)
  append_assoc [] ys zs = refl
  append_assoc (x ∷ xs) ys zs = ap (λ r. x ∷ r) (append_assoc xs ys zs)

  append_nil : (xs : List A) → xs ++ [] ≡ xs
  append_nil [] = refl
  append_nil (x ∷ xs) = ap (λ r. x ∷ r) (append_nil xs)

  get_nil : (n : ℕ) → get n [] ≡ []
  unfolding get
  get_nil zero = refl
  get_nil (suc n) = refl

  get_all :
      (n : ℕ) (slots : List (List A))
      → 0 < length slots
      → length slots ≤ suc n
      → get (suc n) slots ≡ get n (pop_back slots) ++ back slots
  unfolding get pop_back back
  get_all n [] h l = elim h [ ]
  get_all n (slot ∷ []) h l = rw (get_nil n) (append_nil slot)
  get_all zero (slot ∷ next ∷ slots) h l = absurd (omega arith)
  get_all (suc n) (slot ∷ next ∷ slots) h l =
      ap (λ r. slot ++ r) (get_all n (next ∷ slots) (omega arith) (omega arith))
      ∙ sym (append_assoc slot (get n (pop_back (next ∷ slots))) (back (next ∷ slots)))

  -- On a history with a slot, a shift takes the identifiers that it returns out of the history and no others.
  pub get-shift_all :
      (slots : List (List A))
      → 0 < length slots
      → get (length slots) slots ≡ get (length slots) (shift slots).1 ++ (shift slots).0
  unfolding shift get
  get-shift_all [] h = elim h [ ]
  get-shift_all (slot ∷ slots) h = get_all (length slots) (slot ∷ slots) h (omega arith)

  -- `n` shifts, with the identifiers that each returns.
  unfoldable pub shifts : ℕ → List (List A) → List (List A) × List (List A)
  unfolding shift
  shifts zero slots = ([], slots)
  shifts (suc n) slots =
      let first = shift slots in let rest = shifts n first.1 in (first.0 ∷ rest.0, rest.1)

  length-shifts :
      (k : ℕ) (slots : List (List A)) → 0 < length slots → length (shifts k slots).1 ≡ length slots
  unfolding shifts
  length-shifts zero slots h = refl
  length-shifts (suc k) slots h =
      length-shifts k (shift slots).1 (rw (length-shift slots h) h) ∙ length-shift slots h

  -- After `k` shifts the window of `k + n` slots is the window of `n` slots before them, as long
  -- as the history has that many slots.
  pub get-shifts :
      (k n : ℕ) (slots : List (List A))
      → k + n ≤ length slots
      → get (k + n) (shifts k slots).1 ≡ get n slots
  unfolding shifts get
  get-shifts zero n slots h = ap (λ m. get m slots) (omega arith)
  get-shifts (suc k) n slots h =
      ap (λ m. get m (shifts k (shift slots).1).1) (omega arith)
      ∙ get-shifts k (suc n) (shift slots).1 (rw (length-shift slots (omega arith)) (omega arith))
      ∙ get-suc-shift n slots (omega arith)
