-- ===== src/ReadBuffer/Content.antt =====
-- The bytes that a buffer holds, and the shape of its fragments.
use leanp2p.Prelude.{ℕ, ◌+◌, ◌≤◌, ◌<◌, ◌≡◌, ◌⊎◌, List, [], ◌∷◌, ◌++◌, length, drop, All}
use leanp2p.ReadBuffer.{Fragment, ReadBuffer, bytes_of}

abbrev pub content_of : ℕ → List Fragment → List ℕ
content_of offset [] = []
content_of offset (f ∷ fragments) = drop offset f.bytes ++ bytes_of fragments

abbrev pub content : ReadBuffer → List ℕ
content b = content_of b.first_byte_offset b.fragments

-- Each fragment has bytes that are not consumed.
abbrev pub IsFilled : ℕ → List Fragment → Type 0
IsFilled offset [] = offset ≡ 0
IsFilled offset (f ∷ fragments) =
    (offset < length f.bytes) × All (λ (g : Fragment). 0 < length g.bytes) fragments

-- The last fragment has room for `r` bytes more.
abbrev pub HasRoom : ℕ → List Fragment → Type 0
HasRoom r [] = r ≡ 0
HasRoom r (f ∷ []) = length f.bytes + r ≤ f.capacity
HasRoom r (f ∷ g ∷ fragments) = HasRoom r (g ∷ fragments)

abbrev pub IsSolid : List Fragment → Type 0
IsSolid fragments = All (λ (f : Fragment). 0 < f.capacity) fragments

-- The fragment that `consumeAll` keeps.
abbrev pub IsCleared : ℕ → ℕ → List Fragment → Type 0
IsCleared offset r [] = ⊥
IsCleared offset r (f ∷ []) = (f.bytes ≡ []) × (offset ≡ 0) × (0 < r)
IsCleared offset r (f ∷ g ∷ fragments) = ⊥

pub record IsValid (b : ReadBuffer) : Type 0 where
  pub granularity : 0 < b.alloc_granularity
  pub size : b.total_size ≡ length (content b)
  pub room : HasRoom b.capacity_remains b.fragments
  pub solid : IsSolid b.fragments
  pub shape :
      IsFilled b.first_byte_offset b.fragments
      ⊎ IsCleared b.first_byte_offset b.capacity_remains b.fragments
