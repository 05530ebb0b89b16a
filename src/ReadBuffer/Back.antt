-- ===== src/ReadBuffer/Back.antt =====
-- The fragments of a buffer when the last of them grows, and when one comes behind it.
use mathlib.Core.List.{append-nil, append_assoc}
use leanp2p.Prelude.{
  ℕ, ◌+◌, ◌≤◌, ◌<◌, ◌≡◌, sym, ap, ◌∙◌, arith, inl, inr, ◌⊎◌, List, [], ◌∷◌, ◌++◌, length, drop, All,
  All-append, length-append, drop-append-le,
}
use leanp2p.ReadBuffer.{Fragment, bytes_of, modify_back}
use leanp2p.ReadBuffer.Content.{content_of, IsFilled, HasRoom, IsSolid, IsCleared}

-- What a vector that gets the bytes `xs` at its end is afterwards.
pub record IsGrown (xs : List ℕ) (r r' : ℕ) (f g : Fragment) : Type 0 where
  pub bytes : g.bytes ≡ f.bytes ++ xs
  pub capacity : f.capacity ≤ g.capacity
  pub room : length f.bytes + r ≤ f.capacity → length g.bytes + r' ≤ g.capacity

module _ (φ : Fragment → Fragment) (xs : List ℕ) (r r' : ℕ)
    (grown : (f : Fragment) → IsGrown xs r r' f (φ f)) where
  pub bytes_of-modify_back :
      (f : Fragment) (fragments : List Fragment)
      → bytes_of (modify_back φ (f ∷ fragments)) ≡ bytes_of (f ∷ fragments) ++ xs
  unfolding modify_back
  bytes_of-modify_back f [] =
      append-nil _ ∙ (grown f).bytes ∙ ap (λ l. l ++ xs) (sym (append-nil f.bytes))
  bytes_of-modify_back f (g ∷ fragments) =
      ap (λ l. f.bytes ++ l) (bytes_of-modify_back g fragments) ∙ sym (append_assoc f.bytes _ xs)

  pub content_of-modify_back :
      (offset : ℕ) (f : Fragment) (fragments : List Fragment)
      → offset ≤ length f.bytes
      → content_of offset (modify_back φ (f ∷ fragments)) ≡ content_of offset (f ∷ fragments) ++ xs
  unfolding modify_back
  content_of-modify_back offset f [] h =
      append-nil _
      ∙ ap (drop offset) (grown f).bytes
      ∙ drop-append-le offset f.bytes xs h
      ∙ ap (λ l. l ++ xs) (sym (append-nil (drop offset f.bytes)))
  content_of-modify_back offset f (g ∷ fragments) h =
      ap (λ l. drop offset f.bytes ++ l) (bytes_of-modify_back g fragments)
      ∙ sym (append_assoc (drop offset f.bytes) _ xs)

  pub HasRoom-modify_back :
      (fragments : List Fragment)
      → 0 < r
      → HasRoom r fragments
      → HasRoom r' (modify_back φ fragments)
  unfolding modify_back
  HasRoom-modify_back [] h room = absurd (omega arith)
  HasRoom-modify_back (f ∷ []) h room = (grown f).room room
  HasRoom-modify_back (f ∷ g ∷ []) h room = HasRoom-modify_back (g ∷ []) h room
  HasRoom-modify_back (f ∷ g ∷ k ∷ fragments) h room =
      HasRoom-modify_back (g ∷ k ∷ fragments) h room

  pub IsSolid-modify_back :
      (fragments : List Fragment) → IsSolid fragments → IsSolid (modify_back φ fragments)
  unfolding modify_back
  IsSolid-modify_back [] solid = tt
  IsSolid-modify_back (f ∷ []) solid = (omega (arith, (grown f).capacity, solid.0), tt)
  IsSolid-modify_back (f ∷ g ∷ fragments) solid =
      (solid.0, IsSolid-modify_back (g ∷ fragments) solid.1)

  pub filled-modify_back :
      (fragments : List Fragment)
      → All (λ (g : Fragment). 0 < length g.bytes) fragments
      → All (λ (g : Fragment). 0 < length g.bytes) (modify_back φ fragments)
  unfolding modify_back
  filled-modify_back [] h = tt
  filled-modify_back (f ∷ []) h =
      (omega (arith, ap length (grown f).bytes, length-append f.bytes xs, h.0), tt)
  filled-modify_back (f ∷ g ∷ fragments) h = (h.0, filled-modify_back (g ∷ fragments) h.1)

  pub IsFilled-modify_back :
      (offset : ℕ) (fragments : List Fragment)
      → 0 < length xs
      → 0 < r
      → HasRoom r fragments
      → IsFilled offset fragments ⊎ IsCleared offset r fragments
      → IsFilled offset (modify_back φ fragments)
  unfolding modify_back
  IsFilled-modify_back offset [] n h room s = absurd (omega arith)
  IsFilled-modify_back offset (f ∷ []) n h room (inl filled) =
      (omega (arith, ap length (grown f).bytes, length-append f.bytes xs, filled.0), tt)
  IsFilled-modify_back offset (f ∷ []) n h room (inr cleared) =
      (omega (arith, ap length (grown f).bytes, length-append f.bytes xs, cleared.1), tt)
  IsFilled-modify_back offset (f ∷ g ∷ fragments) n h room (inl filled) =
      (filled.0, filled-modify_back (g ∷ fragments) filled.1)
  IsFilled-modify_back offset (f ∷ g ∷ fragments) n h room (inr cleared) = absurd cleared

  pub content-modify_back :
      (offset : ℕ) (fragments : List Fragment)
      → 0 < r
      → HasRoom r fragments
      → IsFilled offset fragments ⊎ IsCleared offset r fragments
      → content_of offset (modify_back φ fragments) ≡ content_of offset fragments ++ xs
  content-modify_back offset [] h room s = absurd (omega arith)
  content-modify_back offset (f ∷ fragments) h room (inl filled) =
      content_of-modify_back offset f fragments (omega arith)
  content-modify_back offset (f ∷ []) h room (inr cleared) =
      content_of-modify_back offset f [] (omega (arith, cleared.1))
  content-modify_back offset (f ∷ g ∷ fragments) h room (inr cleared) = absurd cleared

-- A new fragment at the end.
module _ (new : Fragment) where
  pub bytes_of-back :
      (fragments : List Fragment)
      → bytes_of (fragments ++ (new ∷ [])) ≡ bytes_of fragments ++ new.bytes
  bytes_of-back [] = append-nil new.bytes
  bytes_of-back (f ∷ fragments) =
      ap (λ l. f.bytes ++ l) (bytes_of-back fragments)
      ∙ sym (append_assoc f.bytes (bytes_of fragments) new.bytes)

  pub content_of-back :
      (offset : ℕ) (fragments : List Fragment)
      → IsFilled offset fragments
      → content_of offset (fragments ++ (new ∷ [])) ≡ content_of offset fragments ++ new.bytes
  content_of-back offset [] filled =
      append-nil (drop offset new.bytes) ∙ ap (λ (k : ℕ). drop k new.bytes) filled
  content_of-back offset (f ∷ fragments) filled =
      ap (λ l. drop offset f.bytes ++ l) (bytes_of-back fragments)
      ∙ sym (append_assoc (drop offset f.bytes) (bytes_of fragments) new.bytes)

  pub HasRoom-back :
      (r : ℕ) (fragments : List Fragment)
      → length new.bytes + r ≤ new.capacity
      → HasRoom r (fragments ++ (new ∷ []))
  HasRoom-back r [] h = h
  HasRoom-back r (f ∷ []) h = h
  HasRoom-back r (f ∷ g ∷ fragments) h = HasRoom-back r (g ∷ fragments) h

  pub IsFilled-back :
      (offset : ℕ) (fragments : List Fragment)
      → 0 < length new.bytes
      → IsFilled offset fragments
      → IsFilled offset (fragments ++ (new ∷ []))
  IsFilled-back offset [] h filled = (omega arith, tt)
  IsFilled-back offset (f ∷ fragments) h filled = (
    filled.0,
    All-append (λ (g : Fragment). 0 < length g.bytes) fragments (new ∷ []) filled.1 (h, tt),
  )

pub not_cleared :
    (offset r : ℕ) (fragments : List Fragment)
    → r ≡ 0
    → IsFilled offset fragments ⊎ IsCleared offset r fragments
    → IsFilled offset fragments
not_cleared offset r fragments h (inl filled) = filled
not_cleared offset r [] h (inr cleared) = absurd cleared
not_cleared offset r (f ∷ []) h (inr cleared) = absurd (omega (arith, cleared.2))
not_cleared offset r (f ∷ g ∷ fragments) h (inr cleared) = absurd cleared
