-- ===== src/Routing/Sticky/Network.antt =====
-- The masked client network.
use native.Mathlib.Nat.{pow-suc, mul-div_cancel, div-mul-le_self}
use powergslb.Base.{
  ℕ, ◌-◌, ◌/◌, ◌^◌, ◌≡◌, ◌≤◌, ◌<◌, refl, ap, sym, ◌∙◌, ◌↔◌, zero, suc, arith, length, ok,
}
use powergslb.Base.Bytes.{
  Bytes, big_endian, to_bytes, from_bytes, from_bytes-to_bytes, length-to_bytes,
}
use powergslb.Client.{Version, v4, v6, IpAddress}
use powergslb.Routing.Sticky.{width, family_prefix, clear_low_bits, masked_network}

-- Two addresses of one family that agree on the bits of the prefix.
abbrev pub SameNetwork : IpAddress → IpAddress → ℕ → ℕ → Type 0
SameNetwork a b ipv4_prefix ipv6_prefix =
    let host_bits = width a.version - family_prefix a.version ipv4_prefix ipv6_prefix in
    (a.version ≡ b.version) × (a.value / 2 ^ host_bits ≡ b.value / 2 ^ host_bits)

pub masked_network-eq :
    (a b : IpAddress) (p q : ℕ) → SameNetwork a b p q → masked_network a p q ≡ masked_network b p q
unfolding masked_network
masked_network-eq a b p q (v, e) = cc

-- The masked network is as wide as the family, and keeps the prefix and nothing else.
masked_network-fields :
    (ip : IpAddress) (p q : ℕ) {network : Bytes}
    → masked_network ip p q ≡ ok network
    → (length network ≡ width ip.version / 8)
      × (from_bytes network
          ≡ clear_low_bits ip.value (width ip.version - family_prefix ip.version p q))
unfolding masked_network
masked_network-fields ip p q {network} h =
    let host_bits = width ip.version - family_prefix ip.version p q in
    let bytes = to_bytes (width ip.version / 8) (clear_low_bits ip.value host_bits) in
    let e : bytes ≡ ok network = ground arith in (length-to_bytes _ _ e, from_bytes-to_bytes _ _ e)

two-pow-pos : (n : ℕ) → 0 < 2 ^ n
two-pow-pos zero = omega arith
two-pow-pos (suc n) = omega (arith, pow-suc 2 n, two-pow-pos n)

clear_low_bits-injective :
    (x y h : ℕ) → clear_low_bits x h ≡ clear_low_bits y h → x / 2 ^ h ≡ y / 2 ^ h
clear_low_bits-injective x y h e =
    sym (mul-div_cancel (x / 2 ^ h) (two-pow-pos h))
    ∙ ap (λ n. n / 2 ^ h) e
    ∙ mul-div_cancel (y / 2 ^ h) (two-pow-pos h)

width-injective : (v w : Version) → width v / 8 ≡ width w / 8 → v ≡ w
width-injective v4 v4 e = refl
width-injective v4 v6 e = absurd (omega arith)
width-injective v6 v4 e = absurd (omega arith)
width-injective v6 v6 e = refl

-- Two clients are masked to the same bytes exactly when they have one family and agree on the bits of
-- its prefix: the host bits never matter, and no two networks collide.
pub masked_network-eq_iff :
    (a b : IpAddress) (p q : ℕ) (network : Bytes)
    → masked_network a p q ≡ ok network
    → (masked_network b p q ≡ ok network) ↔ SameNetwork a b p q
masked_network-eq_iff a b p q network h = (forth, back)
  where
    back : SameNetwork a b p q → masked_network b p q ≡ ok network
    back same = sym (masked_network-eq a b p q same) ∙ h

    forth : masked_network b p q ≡ ok network → SameNetwork a b p q
    forth k =
        let f = masked_network-fields a p q h in
        let g = masked_network-fields b p q k in
        let v : a.version ≡ b.version = width-injective a.version b.version (sym f.0 ∙ g.0) in
        let host_bits = width a.version - family_prefix a.version p q in
        let e : clear_low_bits a.value host_bits ≡ clear_low_bits b.value host_bits =
          cc (v, f.1, g.1) in
        (v, clear_low_bits-injective a.value b.value host_bits e)

masked_v4 :
    (x p q : ℕ)
    → x < 2 ^ 32
    → p ≤ 32
    → masked_network (record { version = v4; value = x }) p q
      ≡ ok (big_endian 4 (clear_low_bits x (32 - p)))
unfolding masked_network
masked_v4 x p q h hp = ground (arith, div-mul-le_self x (2 ^ (32 - p)))

masked_v6 :
    (x p q : ℕ)
    → x < 2 ^ 128
    → q ≤ 128
    → masked_network (record { version = v6; value = x }) p q
      ≡ ok (big_endian 16 (clear_low_bits x (128 - q)))
unfolding masked_network
masked_v6 x p q h hq = ground (arith, div-mul-le_self x (2 ^ (128 - q)))

-- An address in its family's range under a prefix no longer than it has a masked network.
pub masked_network-total :
    (ip : IpAddress) (p q : ℕ)
    → ip.value < 2 ^ width ip.version
    → p ≤ 32
    → q ≤ 128
    → (network : Bytes) × (masked_network ip p q ≡ ok network)
masked_network-total ip p q h hp hq = go ip.version ip.value h
  where
    go :
        (v : Version) (x : ℕ)
        → x < 2 ^ width v
        → (network : Bytes) × (masked_network (record { version = v; value = x }) p q ≡ ok network)
    go v4 x h = (big_endian 4 (clear_low_bits x (32 - p)), masked_v4 x p q h hp)
    go v6 x h = (big_endian 16 (clear_low_bits x (128 - q)), masked_v6 x p q h hq)
