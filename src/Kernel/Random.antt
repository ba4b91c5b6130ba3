-- ===== src/Kernel/Random.antt =====
-- The generator of xv6-riscv/kernel/rng.c, xoroshiro128+ on 64-bit words. `rand_int` updates the
-- state behind the release of its lock; here no other call comes in between.
use Prim.Native.Nat.{bit_xor, bit_or}
use opperating_system_practi.Base.{ℕ, ◌+◌, ◌-◌, ◌*◌, ◌/◌, ◌%◌, ◌^◌}
use opperating_system_practi.Kernel.{Rng}

abbrev u64 : ℕ → ℕ
u64 x = x % 2 ^ 64

-- `x << k`
abbrev shl : ℕ → ℕ → ℕ
shl x k = u64 (x * 2 ^ k)

unfoldable pub rotl : ℕ → ℕ → ℕ
rotl x k = bit_or (shl x k) (x / 2 ^ (64 - k))

unfoldable pub splitmix64next : ℕ → ℕ
splitmix64next x =
    let a = u64 (x + 0x9e3779b97f4a7c15) in
    let b = u64 (bit_xor a (a / 2 ^ 30) * 0xbf58476d1ce4e5b9) in
    let c = u64 (bit_xor b (b / 2 ^ 27) * 0x94d049bb133111eb) in bit_xor c (c / 2 ^ 31)

unfoldable pub rng_seed : ℕ → Rng
unfolding splitmix64next
rng_seed seed = let a = splitmix64next seed in record { s0 = a; s1 = splitmix64next a }

-- The result is the bit pattern of the `int`.
unfoldable pub rand_int : Rng → Rng × ℕ
unfolding rotl
rand_int r =
    let x = bit_xor r.s1 r.s0 in
    (
      record { s0 = bit_xor (bit_xor (rotl r.s0 24) x) (shl x 16); s1 = rotl x 37 },
      u64 (r.s0 + r.s1) / 2 ^ 32,
    )
