-- ===== src/Routing/Sticky/Buffer.antt =====
-- The buffer that `_stable_hash` digests tells every two pairs apart.
use mathlib.Core.List.{head-eq_of_cons-eq, tail-eq_of_cons-eq}
use powergslb.Base.{ℕ, ◌≡◌, refl, ap, sym, ◌∙◌, List, [], ◌∷◌, ◌++◌, arith, length, ok, >>=-eq-ok}
use powergslb.Base.Bytes.{Bytes, to_bytes, from_bytes, from_bytes-to_bytes, length-to_bytes}
use powergslb.Routing.Sticky.{hash_buffer}

append_inj {ℓ} :
    {A : Type ℓ} (xs us : List A) {ys vs : List A}
    → length xs ≡ length us
    → xs ++ ys ≡ us ++ vs
    → (xs ≡ us) × (ys ≡ vs)
append_inj [] [] l e = (refl, e)
append_inj [] (u ∷ us) l e = absurd (omega arith)
append_inj (x ∷ xs) [] l e = absurd (omega arith)
append_inj (x ∷ xs) (u ∷ us) l e =
    let tails = append_inj xs us (omega arith) (tail-eq_of_cons-eq e) in
    (cc (head-eq_of_cons-eq e, tails.0), tails.1)

-- A block of bytes behind its length, in `width` bytes, can be split off again.
block_inj :
    (width : ℕ) (xs us : Bytes) {n m : Bytes} {ys vs : Bytes}
    → to_bytes width (length xs) ≡ ok n
    → to_bytes width (length us) ≡ ok m
    → n ++ (xs ++ ys) ≡ m ++ (us ++ vs)
    → (xs ≡ us) × (ys ≡ vs)
block_inj width xs us {n} {m} h k e =
    let heads = append_inj n m (length-to_bytes _ _ h ∙ sym (length-to_bytes _ _ k)) e in
    let l : length xs ≡ length us =
      sym (from_bytes-to_bytes _ _ h) ∙ ap from_bytes heads.0 ∙ from_bytes-to_bytes _ _ k in
    append_inj xs us l heads.1

-- The parts of a buffer.
abbrev Layout : Bytes → Bytes → Bytes → Type 0
Layout network content buffer =
    (n : Bytes) × (c : Bytes) × (to_bytes 2 (length network) ≡ ok n)
    × (to_bytes 4 (length content) ≡ ok c)
    × (n ++ (network ++ (c ++ content)) ≡ buffer)

ok-injective : {b c : Bytes} → ok b ≡ ok c → b ≡ c
ok-injective e = cc

hash_buffer-Layout :
    (network content : Bytes) {buffer : Bytes}
    → hash_buffer network content ≡ ok buffer
    → Layout network content buffer
unfolding hash_buffer
hash_buffer-Layout network content {buffer} h =
    let (n, e, f) = >>=-eq-ok {B = Bytes} (to_bytes 2 (length network)) _ h in
    let (c, g, k) = >>=-eq-ok {B = Bytes} (to_bytes 4 (length content)) _ f in
    (n, c, e, g, ok-injective k)

-- Two distinct pairs of a network and a content never yield the same buffer.
pub hash_buffer-injective :
    (network content network' content' : Bytes) (buffer : Bytes)
    → hash_buffer network content ≡ ok buffer
    → hash_buffer network' content' ≡ ok buffer
    → (network ≡ network') × (content ≡ content')
hash_buffer-injective network content network' content' buffer h k =
    let (n, c, e, f, g) = hash_buffer-Layout network content h in
    let (n', c', e', f', g') = hash_buffer-Layout network' content' k in
    let (same, tails) = block_inj 2 network network' e e' (g ∙ sym g') in
    (same, (append_inj c c' (length-to_bytes _ _ f ∙ sym (length-to_bytes _ _ f')) tails).1)
