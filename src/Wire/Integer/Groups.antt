-- ===== src/Wire/Integer/Groups.antt =====
-- What `encode_u64` writes, group by group, in plain arithmetic.
use tith.Base.{
  ℕ, zero, suc, ◌+◌, ◌/◌, ◌%◌, ◌≤◌, ◌<◌, ◌≡◌, ◌≢◌, refl, ap, arith, ◌∙◌, List, [], ◌∷◌, length,
  get_or,
}
use native.Mathlib.Decide.{ℕ_discrete}
use tith.Base.Bits.{set_top_bit, bit_or-zero}
use tith.Wire.Integer.{IsU64, max_u64_bytes, groups, emit, encode_u64}

-- `value` after `index` rounds of `value >>= 7`.
unfoldable pub shift : ℕ → ℕ → ℕ
shift value zero = value
shift value (suc index) = shift value index / 128

pub shift-suc : (v i : ℕ) → shift v (suc i) ≡ shift v i / 128
unfolding shift
shift-suc v i = refl

pub shift-div : (v i : ℕ) → shift (v / 128) i ≡ shift v (suc i)
unfolding shift
shift-div v zero = refl
shift-div v (suc i) = omega (arith, shift-div v i)

pub shift-le : (v i : ℕ) → shift v i ≤ v
unfolding shift
shift-le v zero = omega arith
shift-le v (suc i) = omega (arith, shift-le v i)

pub shift_stays-zero : (v i k : ℕ) → shift v i ≡ 0 → shift v (i + k) ≡ 0
unfolding shift
shift_stays-zero v i zero h = ground arith
shift_stays-zero v i (suc k) h =
    let e : i + suc k ≡ suc (i + k) = omega arith in rw e (omega (arith, shift_stays-zero v i k h))

-- Ten groups hold a u64.
pub shift_ten : (v : ℕ) → IsU64 v → shift v 10 ≡ 0
unfolding shift
shift_ten v h = omega arith

-- The groups of `value` from `index` down to 0, the top bit set on all but the last.
unfoldable pub bytes_below : ℕ → ℕ → List ℕ
bytes_below zero v = []
bytes_below (suc zero) v = (v % 128) ∷ []
bytes_below (suc (suc i)) v = (shift v (suc i) % 128 + 128) ∷ bytes_below (suc i) v

pub length-bytes_below : (i v : ℕ) → length (bytes_below i v) ≡ i
unfolding bytes_below
length-bytes_below zero v = refl
length-bytes_below (suc zero) v = refl
length-bytes_below (suc (suc i)) v = omega (arith, length-bytes_below (suc i) v)

get_or-groups : (k v i : ℕ) → i < length (groups k v) → get_or (groups k v) i 0 ≡ shift v i % 128
unfolding groups
get_or-groups zero v i h = elim h [ ]
get_or-groups (suc k) v zero h = unfold shift in refl
get_or-groups (suc k) v (suc i) h = ground (arith, get_or-groups k (v / 128) i, shift-div v i)

emit-groups : (i k v : ℕ) → i ≤ length (groups k v) → emit i (groups k v) ≡ bytes_below i v
unfolding emit bytes_below
emit-groups zero k v h = refl
emit-groups (suc zero) k v h =
    rw (get_or-groups k v 0 h)
      (unfold shift in ap (λ t. t ∷ []) (bit_or-zero (v % 128) (omega arith)))
emit-groups (suc (suc i)) k v h = ground (
  arith,
  get_or-groups k v (suc i) h,
  set_top_bit (shift v (suc i) % 128),
  emit-groups (suc i) k v (omega arith),
)

-- How many groups `encode_u64` writes.
unfoldable pub used : ℕ → ℕ
used v = length (groups 10 v)

pub encode-bytes_below : (v : ℕ) → encode_u64 v ≡ bytes_below (used v) v
unfolding encode_u64 used
encode-bytes_below v = emit-groups _ 10 v (omega arith)

-- `n` is the least number of groups, one at least, that leaves nothing of `v`.
pub record IsWidth (v n : ℕ) : Type 0 where
  pub positive : 1 ≤ n
  pub reaches : shift v n ≡ 0
  pub least : (m : ℕ) → 1 ≤ m → m < n → shift v m ≢ 0

pub IsWidth-unique : (v n m : ℕ) → IsWidth v n → IsWidth v m → n ≡ m
IsWidth-unique v n m a b =
    ground (arith, a.least m b.positive, b.least n a.positive, a.reaches, b.reaches)

IsWidth-one : (v : ℕ) → v / 128 ≡ 0 → IsWidth v 1
IsWidth-one v h = record {
  positive = omega arith;
  reaches = unfold shift in h;
  least = λ m a b. absurd (omega arith);
}

IsWidth-suc : (v n : ℕ) → v / 128 ≢ 0 → IsWidth (v / 128) n → IsWidth v (suc n)
IsWidth-suc v n h w = record {
  positive = omega arith;
  reaches = rw (← shift-div v n) w.reaches;
  least = elim [ zero ↦ λ a b. absurd (omega arith) | suc m ↦ λ a b e. above m (omega arith) e ];
}
  where
    above : (m : ℕ) → m < n → shift v (suc m) ≡ 0 → ⊥
    above zero b e = h (unfold shift in e)
    above (suc m) b e = w.least (suc m) (omega arith) b (shift-div v (suc m) ∙ e)

groups_zero : (k v : ℕ) → v / 128 ≡ 0 → groups (suc k) v ≡ (v % 128) ∷ []
unfolding groups
groups_zero k v h = ground arith

groups_more : (k v : ℕ) → v / 128 ≢ 0 → groups (suc k) v ≡ (v % 128) ∷ groups k (v / 128)
unfolding groups
groups_more k v h = ground arith

groups-IsWidth :
    (k v : ℕ)
    → shift v (suc k) ≡ 0
    → IsWidth v (length (groups (suc k) v)) × (length (groups (suc k) v) ≤ suc k)
groups-IsWidth zero v h =
    let e : v / 128 ≡ 0 = unfold shift in h in
    rw (groups_zero zero v e) (IsWidth-one v e, omega arith)
groups-IsWidth (suc k) v h = elim (ℕ_discrete (v / 128) 0) [
  | yes e ↦ rw (groups_zero (suc k) v e) (IsWidth-one v e, omega arith)
  | no e ↦
      let (w, fits) = groups-IsWidth k (v / 128) (shift-div v (suc k) ∙ h) in
      rw (groups_more (suc k) v e) (IsWidth-suc v _ e w, omega arith)
]

pub used-IsWidth : (v : ℕ) → IsU64 v → IsWidth v (used v)
unfolding used
used-IsWidth v h = (groups-IsWidth 9 v (shift_ten v h)).0

-- The ten slots of the array are enough, and one is always taken.
pub used_bounds : (v : ℕ) → IsU64 v → (1 ≤ used v) × (used v ≤ max_u64_bytes)
unfolding used
used_bounds v h = let (w, fits) = groups-IsWidth 9 v (shift_ten v h) in (w.positive, fits)
