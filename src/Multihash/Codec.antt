-- ===== src/Multihash/Codec.antt =====
-- A multihash and its bytes: the parser inverts the constructor, and accepts nothing else.
use leanp2p.Prelude.{
  ℕ, ◌%◌, ◌≤◌, ◌≡◌, ◌↔◌, refl, sym, ap, ◌∙◌, arith, true, List, [], ◌∷◌, ◌++◌, length,
  length-append, drop, drop-length_append, ◌==◌, if◌then◌else◌, bytes_eq_iff,
}
use mathlib.Core.List.{append_assoc}
use leanp2p.Varint.{
  IsU64, uvarint, append_varint, Reader, State, underflow, ready, overflow, error, consume_bytes,
  reset,
}
use leanp2p.Varint.RoundTrip.{append_varint-uvarint, consume_bytes-uvarint, length-uvarint_loop}
use leanp2p.Multihash.{
  Multihash, zero_input_length, ok, err, data_of, create, create_from_rest, create_from_reader,
  create_from_bytes, get_hash, equal,
}

length-uvarint_le : (v : ℕ) → length (uvarint v) ≤ 10
unfolding uvarint
length-uvarint_le v = (length-uvarint_loop 9 v).1

pub data_of_bytes :
    (t : ℕ) (h : List ℕ) → length h ≤ 127 → (data_of t h).bytes ≡ uvarint t ++ (length h ∷ h)
unfolding data_of
data_of_bytes t h small = rw (append_varint-uvarint [] t) (
    append_assoc (uvarint t) _ h
    ∙ ap (λ (n : ℕ). uvarint t ++ (n ∷ h)) {y = length h} (omega arith))

get_hash-data_of : (t : ℕ) (h : List ℕ) → get_hash (data_of t h) ≡ h
unfolding get_hash data_of
get_hash-data_of t h =
    let header = append_varint [] t ++ ((length h % 256) ∷ []) in
    ap (λ (n : ℕ). drop n (header ++ h)) {y = length header}
      (rw (append_varint-uvarint [] t)
        (omega (arith, length-append (uvarint t) ((length h % 256) ∷ []), length-uvarint_le t)))
    ∙ drop-length_append header h

create_from_bytes-header :
    (t : ℕ) (rest : List ℕ)
    → IsU64 t
    → create_from_bytes (uvarint t ++ rest) ≡ create_from_rest t rest
unfolding create_from_bytes
create_from_bytes-header t rest h = ap create_from_reader (consume_bytes-uvarint t rest h)

pub create_ok :
    (t : ℕ) (h : List ℕ) (m : Multihash) → create t h ≡ ok m → (length h ≤ 127) × (m ≡ data_of t h)
unfolding create
create_ok t h m e = (ground arith, ground arith)

data_of_type : (t : ℕ) (h : List ℕ) → (data_of t h).type ≡ t
unfolding data_of
data_of_type t h = refl

create_from_bytes-data_of :
    (t : ℕ) (h : List ℕ)
    → IsU64 t
    → length h ≤ 127
    → create_from_bytes (data_of t h).bytes
      ≡ (if length h == 0 then err zero_input_length else ok (data_of t h))
create_from_bytes-data_of t h u small =
    ap create_from_bytes (data_of_bytes t h small)
    ∙ create_from_bytes-header t (length h ∷ h) u
    ∙ unfold create_from_rest create in ground arith

-- A multihash that `create` makes, of a type that fits in 64 bits, holds the type and the hash it was made from, and
-- `createFromBytes` reads it back from its bytes, unless the hash is empty: `create` accepts that
-- one, and the parser refuses its bytes by ZERO_INPUT_LENGTH.
pub create_from_bytes-create :
    (t : ℕ) (h : List ℕ) (m : Multihash)
    → IsU64 t
    → create t h ≡ ok m
    → (m.type ≡ t)
      × (get_hash m ≡ h)
      × (create_from_bytes m.bytes ≡ (if length h == 0 then err zero_input_length else ok m))
create_from_bytes-create t h m u e =
    let (small, f) = create_ok t h m e in
    rw f (data_of_type t h, get_hash-data_of t h, create_from_bytes-data_of t h u small)

create_from_rest_ok :
    (t : ℕ) (b : List ℕ) (m : Multihash)
    → create_from_rest t b ≡ ok m
    → (h : List ℕ) × (b ≡ length h ∷ h) × (1 ≤ length h) × (length h ≤ 127) × (m ≡ data_of t h)
unfolding create_from_rest create
create_from_rest_ok t [] m e = cc
create_from_rest_ok t (len ∷ h) m e = (h, ground arith, ground arith, ground arith, ground arith)

create_from_reader_ok :
    (t : Reader × State × List ℕ) (m : Multihash)
    → create_from_reader t ≡ ok m
    → (t.1 ≡ ready) × (create_from_rest t.0.value t.2 ≡ ok m)
unfolding create_from_reader
create_from_reader_ok (vr, underflow, b) m e = cc
create_from_reader_ok (vr, ready, b) m e = (refl, e)
create_from_reader_ok (vr, overflow, b) m e = cc
create_from_reader_ok (vr, error, b) m e = cc

-- What `createFromBytes` accepts: a whole varint, then one length byte from 1 to 127, then exactly
-- that many bytes. The result holds the number and those bytes, and its own bytes are the
-- shortest form of the same multihash.
pub create_from_bytes_ok :
    (b : List ℕ) (m : Multihash)
    → create_from_bytes b ≡ ok m
    → ((consume_bytes reset b).1 ≡ ready)
      × (m.type ≡ (consume_bytes reset b).0.value)
      × ((consume_bytes reset b).2 ≡ length (get_hash m) ∷ get_hash m)
      × (1 ≤ length (get_hash m))
      × (length (get_hash m) ≤ 127)
      × (m.bytes ≡ uvarint m.type ++ (consume_bytes reset b).2)
unfolding create_from_bytes
create_from_bytes_ok b m e =
    let r = consume_bytes reset b in
    let (s, f) = create_from_reader_ok r m e in
    let (h, g, lo, hi, d) = create_from_rest_ok r.0.value r.2 m f in
    rw (d, data_of_type r.0.value h, get_hash-data_of r.0.value h, data_of_bytes r.0.value h hi)
      (s, refl, g, lo, hi, ap (λ l. uvarint r.0.value ++ l) (sym g))

same_hash :
    (t : ℕ) (g h : List ℕ)
    → length g ≤ 127
    → length h ≤ 127
    → (data_of t g).bytes ≡ (data_of t h).bytes
    → g ≡ h
same_hash t g h a b e =
    let front = uvarint t in
    let tails =
      sym (drop-length_append front (length g ∷ g))
      ∙ ap (drop (length front)) (sym (data_of_bytes t g a) ∙ e ∙ data_of_bytes t h b)
      ∙ drop-length_append front (length h ∷ h) in
    ap (drop 1) tails

-- Two multihashes made by `create` are equal exactly when their types and their hashes are.
pub equal_iff :
    (t u : ℕ) (g h : List ℕ) (m n : Multihash)
    → create t g ≡ ok m
    → create u h ≡ ok n
    → (equal m n ≡ true) ↔ ((t ≡ u) × (g ≡ h))
unfolding equal
equal_iff t u g h m n e f =
    let (a, x) = create_ok t g m e in
    let (b, y) = create_ok u h n f in
    let types : (m.type ≡ t) × (n.type ≡ u) =
      (ap (λ k. k.type) x ∙ data_of_type t g, ap (λ k. k.type) y ∙ data_of_type u h) in
    (
      λ q.
          let tu : t ≡ u = ground (arith, types, q) in
          let bs : m.bytes ≡ n.bytes = (bytes_eq_iff m.bytes n.bytes).0 (ground (arith, q)) in
          (
            tu,
            same_hash t g h a b (
                sym (ap (λ k. k.bytes) x)
                ∙ bs
                ∙ ap (λ k. k.bytes) y
                ∙ ap (λ k. (data_of k h).bytes) (sym tu)),
          ),
      λ p. ground (
        arith,
        types,
        p,
        bytes_eq_iff m.bytes n.bytes,
        x ∙ ap (λ k. data_of k g) p.0 ∙ ap (data_of u) p.1 ∙ sym y,
      ),
    )
