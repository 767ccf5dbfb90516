-- ===== src/Utils/BitMap4096.antt =====
-- `BitMap4096` of crates/example/async_runtime/src/utils.rs: a set of positions below 4096 in two
-- levels, a summary word over 64 words. `pos >> 6` is `pos / 64`, `pos & 0b0011_1111` is `pos % 64`.
pub mod Laws
pub mod Find
use rust_root_task_demo.Common.{
  ℕ, zero, suc, ◌+◌, ◌*◌, ◌/◌, ◌%◌, Bool, true, false, List, Option, none, some, replicate, Outcome,
  ret, ◌>>=◌, read, write, if◌then◌else◌, ltb, leb, ◌==◌,
}
use rust_root_task_demo.Utils.BitMap64
use rust_root_task_demo.Utils.BitMap64.{BitMap64}

pub record BitMap4096 : Type 0 where
  pub l1 : BitMap64
  pub l2 : List BitMap64  -- `[BitMap64; 64]`

pub new : BitMap4096
new = record { l1 = BitMap64.new; l2 = replicate 64 BitMap64.new }

pub empty : BitMap4096 → Bool
empty b = BitMap64.empty b.l1

pub set : BitMap4096 → ℕ → Outcome BitMap4096
set b pos = do
  l1 ← BitMap64.set b.l1 (pos / 64)
  old ← read b.l2 (pos / 64)
  word ← BitMap64.set old (pos % 64)
  l2 ← write b.l2 (pos / 64) word
  ret (record { l1 = l1; l2 = l2 })

-- `&&` reads the second level only where the summary bit is set.
pub get : BitMap4096 → ℕ → Outcome Bool
get b pos = do
  summary ← BitMap64.get b.l1 (pos / 64)
  elim summary [
    | true ↦ read b.l2 (pos / 64) >>= λ word. BitMap64.get word (pos % 64)
    | false ↦ ret false
  ]

pub clear : BitMap4096 → ℕ → Outcome BitMap4096
clear b pos = do
  old ← read b.l2 (pos / 64)
  word ← BitMap64.clear old (pos % 64)
  l2 ← write b.l2 (pos / 64) word
  l1 ← (if BitMap64.empty word then BitMap64.clear b.l1 (pos / 64) else ret b.l1)
  ret (record { l1 = l1; l2 = l2 })

pub find_first_one : BitMap4096 → Outcome ℕ
find_first_one b =
    let l1_index = BitMap64.find_first_one b.l1 in
    if l1_index == 64
    then ret (64 * 64)
    else read b.l2 l1_index >>= λ word. ret (l1_index * 64 + BitMap64.find_first_one word)

-- The loop of `find_first_zero` from index `i` on, with `left` words to go.
pub first_zero_from : List BitMap64 → ℕ → ℕ → Outcome ℕ
first_zero_from l2 zero i = ret (64 * 64)
first_zero_from l2 (suc left) i =
    let rest = first_zero_from l2 left (i + 1) in
    do
      word ← read l2 i
      let l2_index = BitMap64.find_first_zero word
      if ltb l2_index 64 then ret (i * 64 + l2_index) else rest

pub find_first_zero : BitMap4096 → Outcome ℕ
find_first_zero b = first_zero_from b.l2 64 0

pub fetch : BitMap4096 → Outcome (Option ℕ × BitMap4096)
fetch b = do
  pos ← find_first_one b
  if leb 4096 pos then ret (none, b) else clear b pos >>= λ rest. ret (some pos, rest)
