-- ===== src/Api/Event.antt =====
-- Events and event masks (pkg/api/event.go). A mask holds event `e` in the bit of weight `1 << (e - 1)`;
-- the bits of an `int32` are those of a number, of which 32 are looked at.
use nri.Base.{
  ℕ, zero, suc, ◌+◌, ◌-◌, ◌*◌, ◌<◌, ◌≡◌, refl, Bool, true, false, not, ◌&&◌, ◌||◌, nat_eq, List, [],
  ◌∷◌, nat_beq, if◌then◌else◌, arith,
}
use Prim.Native.Nat.{◌/◌, ◌%◌}

-- The events by their numbers (pkg/api/api.pb.go).
abbrev pub unknown_event : ℕ
unknown_event = 0

abbrev pub run_pod_event : ℕ
run_pod_event = 1

abbrev pub stop_pod_event : ℕ
stop_pod_event = 2

abbrev pub remove_pod_event : ℕ
remove_pod_event = 3

abbrev pub create_event : ℕ
create_event = 4

abbrev pub post_create_event : ℕ
post_create_event = 5

abbrev pub start_event : ℕ
start_event = 6

abbrev pub post_start_event : ℕ
post_start_event = 7

abbrev pub update_event : ℕ
update_event = 8

abbrev pub post_update_event : ℕ
post_update_event = 9

abbrev pub stop_event : ℕ
stop_event = 10

abbrev pub remove_event : ℕ
remove_event = 11

abbrev pub update_pod_event : ℕ
update_pod_event = 12

abbrev pub post_update_pod_event : ℕ
post_update_pod_event = 13

abbrev pub validate_event : ℕ
validate_event = 14

-- `m & (1 << k) != 0`
unfoldable pub bit : ℕ → ℕ → Bool
bit m zero = nat_beq (m % 2) 1
bit m (suc k) = bit (m / 2) k

-- `m | (1 << k)`
unfoldable pub set_bit : ℕ → ℕ → ℕ
set_bit m zero = m / 2 * 2 + 1
set_bit m (suc k) = set_bit (m / 2) k * 2 + m % 2

-- `m &^ (1 << k)`
unfoldable pub clear_bit : ℕ → ℕ → ℕ
clear_bit m zero = m / 2 * 2
clear_bit m (suc k) = clear_bit (m / 2) k * 2 + m % 2

-- `m & ^n`, for a number of bits
unfoldable pub and_not : ℕ → ℕ → ℕ → ℕ
and_not zero m n = 0
and_not (suc w) m n = and_not w (m / 2) (n / 2) * 2 + (if bit m 0 && not (bit n 0) then 1 else 0)

-- `EventMask.IsSet`
unfoldable pub is_set : ℕ → ℕ → Bool
unfolding bit
is_set mask e = bit mask (e - 1)

-- `EventMask.Set`
unfoldable pub set : ℕ → List ℕ → ℕ
unfolding set_bit
set mask [] = mask
set mask (e ∷ es) = set (set_bit mask (e - 1)) es

-- `EventMask.Clear`
unfoldable pub clear : ℕ → List ℕ → ℕ
unfolding clear_bit
clear mask [] = mask
clear mask (e ∷ es) = clear (clear_bit mask (e - 1)) es

half_plus : (m b : ℕ) → b < 2 → (m * 2 + b) / 2 ≡ m
half_plus m b h = omega arith

half : (m : ℕ) → m * 2 / 2 ≡ m
half m = omega arith

same_suc : (k j : ℕ) → nat_beq (suc k) (suc j) ≡ nat_beq k j
same_suc k j = ground arith

zero_other : (j : ℕ) → nat_beq 0 (suc j) ≡ false
zero_other j = ground arith

pub bit-set_bit : (m k j : ℕ) → bit (set_bit m k) j ≡ (nat_beq k j || bit m j)
unfolding bit set_bit
bit-set_bit m zero zero = ground arith
bit-set_bit m zero (suc j) = rw (half_plus (m / 2) 1 (omega arith), zero_other j) refl
bit-set_bit m (suc k) zero = ground arith
bit-set_bit m (suc k) (suc j) =
    rw (half_plus (set_bit (m / 2) k) (m % 2) (omega arith), bit-set_bit (m / 2) k j, same_suc k j)
      refl

pub bit-clear_bit : (m k j : ℕ) → bit (clear_bit m k) j ≡ (not (nat_beq k j) && bit m j)
unfolding bit clear_bit
bit-clear_bit m zero zero = ground arith
bit-clear_bit m zero (suc j) = rw (half (m / 2), zero_other j) refl
bit-clear_bit m (suc k) zero = ground arith
bit-clear_bit m (suc k) (suc j) =
    rw
      (
        half_plus (clear_bit (m / 2) k) (m % 2) (omega arith),
        bit-clear_bit (m / 2) k j,
        same_suc k j,
      )
      refl

-- What is left over of a mask is nothing exactly if its bits are among the others'.
pub and_not-zero : (w m n k : ℕ) → k < w → and_not w m n ≡ 0 → bit m k ≡ true → bit n k ≡ true
unfolding bit and_not
and_not-zero zero m n k h e b = absurd (omega arith)
and_not-zero (suc w) m n zero h e b = ground arith
and_not-zero (suc w) m n (suc k) h e b =
    and_not-zero w (m / 2) (n / 2) k (omega arith) (ground arith) b
