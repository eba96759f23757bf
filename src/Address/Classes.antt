-- ===== src/Address/Classes.antt =====
-- The classes of addresses, types.rs, and what the masks on the first IPv6 segment let through.
use Prim.Native.Nat.{bit_and}
use pnos_sdk.Base.{ℕ, ◌*◌, ◌/◌, ◌<◌, ◌≤◌, ◌≡◌, ◌↔◌, ◌⊎◌, refl, true, ◌==◌, ==_iff, List, ◌∷◌, arith}
use pnos_sdk.Base.Tables.{every_under, every_under-at}
use pnos_sdk.Address.{v6, lan, ipv6, classify_ip}

mask_table : every_under (λ s. bit_and s 0xffc0 == s / 64 * 64) 65536 ≡ true
unfolding every_under
mask_table = refl

pub mask_ffc0 : (s : ℕ) → s < 65536 → bit_and s 0xffc0 ≡ s / 64 * 64
mask_ffc0 s h = (==_iff _ _).0 (every_under-at _ 65536 s h mask_table)

classify_link_local :
    (s : ℕ) (rest : List ℕ)
    → s < 65536
    → (0xfe80 ≤ s × s < 0xfec0) ⊎ (0xfc00 ≤ s × s < 0xfc40)
    → classify_ip (v6 (s ∷ rest)) ≡ lan
unfolding classify_ip
classify_link_local s rest h r = ground (arith, mask_ffc0 s)

classify-lan :
    (s : ℕ) (rest : List ℕ)
    → s < 65536
    → classify_ip (v6 (s ∷ rest)) ≡ lan
    → (0xfe80 ≤ s × s < 0xfec0) ⊎ (0xfc00 ≤ s × s < 0xfc40)
unfolding classify_ip
classify-lan s rest h e = ground (arith, mask_ffc0 s)

-- An IPv6 address is taken for a local one exactly when its first segment lies in fe80::/10 or in
-- fc00::/10.
pub classify-lan_iff :
    (s : ℕ) (rest : List ℕ)
    → s < 65536
    → (classify_ip (v6 (s ∷ rest)) ≡ lan) ↔ ((0xfe80 ≤ s × s < 0xfec0) ⊎ (0xfc00 ≤ s × s < 0xfc40))
classify-lan_iff s rest h = (classify-lan s rest h, classify_link_local s rest h)

-- The unique local addresses of fc00::/7 beyond fc00::/10, fd00::/8 among them, are taken for public
-- ones.
classify_unique_local :
    (s : ℕ) (rest : List ℕ) → 0xfc40 ≤ s → s < 0xfe00 → classify_ip (v6 (s ∷ rest)) ≡ ipv6
unfolding classify_ip
classify_unique_local s rest lo hi = ground (arith, mask_ffc0 s)
