-- ===== src/Utils/BitMap4096/Find.antt =====
-- The searches of a `BitMap4096`, and `fetch`, which takes the lowest position out.
use native.Mathlib.Decide.{dec_lt, ℕ_discrete}
use rust_root_task_demo.Common.{
  some, zero, if◌then◌else◌, ltb_of_le, leb_of_le, ltb_of_lt, none, leb_of_lt, Option, true, suc,
  Outcome, ℕ, ◌+◌, ◌-◌, ◌*◌, ◌/◌, ◌%◌, ◌<◌, ◌≤◌, ◌≡◌, ◌≢◌, refl, arith, ret, read, read_in_range,
  ◌==◌, ==_ne, ==_eq,
}
use rust_root_task_demo.Common.Bits.{bit_le_one}
use rust_root_task_demo.Utils.BitMap64
use rust_root_task_demo.Utils.BitMap64.{
  BitMap64, member, IsWord, get_in_range, word_zero, member_of_word_zero, find_first_one_lem,
  find_first_zero_lem,
}
use rust_root_task_demo.Utils.BitMap4096.{
  first_zero_from, find_first_zero, empty, fetch, BitMap4096, get, find_first_one,
}
use rust_root_task_demo.Utils.BitMap4096.Laws.{clear_lem, word_of, contains, IsValid}

-- The lowest position at which the set has the value `x`; 4096 if there is none.
pub record IsLowest (b : BitMap4096) (x k : ℕ) : Type 0 where
  pub within : k ≤ 4096
  pub hit : k < 4096 → contains b k ≡ x
  pub below : (j : ℕ) → j < k → contains b j ≡ 1 - x

quotient : (i l : ℕ) → l < 64 → (i * 64 + l) / 64 ≡ i
quotient i l h = omega arith

remainder : (i l : ℕ) → l < 64 → (i * 64 + l) % 64 ≡ l
remainder i l h = omega arith

module _ (b : BitMap4096) (v : IsValid b) where
  word_of_summary_clear : (i : ℕ) → i < 64 → member b.l1 i ≡ 0 → (word_of b i).word ≡ 0
  word_of_summary_clear i h e = ground (arith, v.summary i h)

  word_of_summary_set : (i : ℕ) → i < 64 → member b.l1 i ≡ 1 → (word_of b i).word ≢ 0
  word_of_summary_set i h e = ground (arith, v.summary i h)

  read_word : (i : ℕ) → i < 64 → read b.l2 i ≡ ret (word_of b i)
  read_word i h = read_in_range b.l2 i BitMap64.new (omega (arith, v.words))

  -- `get` reads whether a position below 4096 is in the set, both levels agreeing.
  pub get_lem : (pos : ℕ) → pos < 4096 → get b pos ≡ ret (contains b pos == 1)
  unfolding get
  get_lem pos h = elim (ℕ_discrete (member b.l1 (pos / 64)) 1) [
    | yes e ↦
        rw
          (
            get_in_range b.l1 (pos / 64) (omega arith),
            ==_eq (member b.l1 (pos / 64)) 1 e,
            read_word (pos / 64) (omega arith),
            get_in_range (word_of b (pos / 64)) (pos % 64) (omega arith),
          )
          refl
    | no ne ↦
        rw
          (
            get_in_range b.l1 (pos / 64) (omega arith),
            ==_ne (member b.l1 (pos / 64)) 1 ne,
            member_of_word_zero (word_of b (pos / 64)) (pos % 64) (
                word_of_summary_clear (pos / 64) (omega arith)
                  (omega (arith, ne, bit_le_one b.l1.word (pos / 64)))),
          )
          refl
  ]

  -- The word that the summary names holds a position.
  first_in_word : (i : ℕ) → i < 64 → member b.l1 i ≡ 1 → BitMap64.find_first_one (word_of b i) < 64
  first_in_word i h e =
      let low = find_first_one_lem (word_of b i) in
      elim (dec_lt (BitMap64.find_first_one (word_of b i)) 64) [
        | yes lt ↦ lt
        | no ge ↦ absurd (
            word_of_summary_set i h e
              (word_zero (word_of b i) (v.each_word i) λ j q. low.below j (omega arith)))
      ]

  -- `find_first_one` returns the lowest position of the set, or 4096 for the empty set.
  find_first_one-IsLowest : (k : ℕ) × (find_first_one b ≡ ret k) × IsLowest b 1 k
  unfolding find_first_one
  find_first_one-IsLowest =
      let i = BitMap64.find_first_one b.l1 in
      let top = find_first_one_lem b.l1 in
      elim (ℕ_discrete i 64) [
        | yes e ↦ (
          4096,
          rw (==_eq i 64 e) refl,
          record {
            within = omega arith;
            hit = λ h. absurd (omega arith);
            below = λ j h.
                member_of_word_zero (word_of b (j / 64)) (j % 64)
                  (word_of_summary_clear (j / 64) (omega arith) (top.below (j / 64) (omega arith)));
          },
        )
        | no ne ↦
            let lt : i < 64 = omega (arith, top.within, ne) in
            let low = find_first_one_lem (word_of b i) in
            let in_word = first_in_word i lt (top.hit lt) in
            (
              i * 64 + BitMap64.find_first_one (word_of b i),
              rw (==_ne i 64 ne, read_word i lt) refl,
              record {
                within = omega arith;
                hit = λ h.
                    rw
                      (
                        quotient i (BitMap64.find_first_one (word_of b i)) in_word,
                        remainder i (BitMap64.find_first_one (word_of b i)) in_word,
                      )
                      (low.hit in_word);
                below = λ j h. elim (ℕ_discrete (j / 64) i) [
                  | yes same ↦ rw same (low.below (j % 64) (omega arith))
                  | no apart ↦ member_of_word_zero (word_of b (j / 64)) (j % 64) (
                      word_of_summary_clear (j / 64) (omega arith)
                        (top.below (j / 64) (omega (arith, apart))))
                ];
              },
            )
      ]

  -- `empty` holds if no position is in the set.
  pub empty_of_none : ((j : ℕ) → j < 4096 → contains b j ≡ 0) → empty b ≡ true
  unfolding empty BitMap64.empty
  empty_of_none h = ==_eq b.l1.word 0 (word_zero b.l1 v.summary_word summary_clear)
    where
      clear_word : (i : ℕ) → i < 64 → (word_of b i).word ≡ 0
      clear_word i lt =
          word_zero (word_of b i) (v.each_word i)
            λ l p. rw (quotient i l p, remainder i l p) at (h (i * 64 + l) (omega arith))

      summary_clear : (i : ℕ) → i < 64 → member b.l1 i ≡ 0
      summary_clear i lt = ground (arith, v.summary i lt, clear_word i lt)

  -- What the loop of `find_first_zero` has seen at index `i`: no word before it has a free position.
  first_zero_from-IsLowest :
      (left i : ℕ)
      → i + left ≡ 64
      → ((j : ℕ) → j < i * 64 → contains b j ≡ 1)
      → (k : ℕ) × (first_zero_from b.l2 left i ≡ ret k) × IsLowest b 0 k
  unfolding first_zero_from
  first_zero_from-IsLowest zero i e seen = (
    4096,
    refl,
    record {
      within = omega arith;
      hit = λ h. absurd (omega arith);
      below = λ j h. seen j (omega arith);
    },
  )
  first_zero_from-IsLowest (suc left) i e seen =
      let l = BitMap64.find_first_zero (word_of b i) in
      let low = find_first_zero_lem (word_of b i) in
      let seen' : (j : ℕ) → j < i * 64 + l → contains b j ≡ 1 = λ j h. elim (dec_lt j (i * 64)) [
        | yes lt ↦ seen j lt
        | no ge ↦
            rw (same_word i j l h (omega arith) low.within)
              (low.below (j % 64) (omega (arith, same_word i j l h (omega arith) low.within)))
      ] in
      elim (dec_lt l 64) [
        | yes lt ↦ (
          i * 64 + l,
          rw (read_word i (omega arith), ltb_of_lt l 64 lt) refl,
          record {
            within = omega arith;
            hit = λ h. rw (quotient i l lt, remainder i l lt) (low.hit lt);
            below = seen';
          },
        )
        | no ge ↦
            rw (read_word i (omega arith), ltb_of_le l 64 (omega arith))
              (first_zero_from-IsLowest left (i + 1) (omega arith)
                λ j h. seen' j (omega (arith, low.within)))
      ]
    where
      same_word : (i j l : ℕ) → j < i * 64 + l → i * 64 ≤ j → l ≤ 64 → j / 64 ≡ i
      same_word i j l h p q = omega arith

  -- `find_first_zero` returns the lowest position outside the set, or 4096 for the full set.
  find_first_zero-IsLowest : (k : ℕ) × (find_first_zero b ≡ ret k) × IsLowest b 0 k
  unfolding find_first_zero
  find_first_zero-IsLowest =
      first_zero_from-IsLowest 64 0 (omega arith) (λ j h. absurd (omega arith))

-- What `fetch` does: on the empty set it returns `None` and changes nothing; otherwise it returns
-- the lowest position and takes that one alone out.
pub data Fetches (b : BitMap4096) : Outcome (Option ℕ × BitMap4096) → Type 0 where
  nothing : ((j : ℕ) → j < 4096 → contains b j ≡ 0) → Fetches b (ret (none, b))
  lowest :
      (k : ℕ) (b' : BitMap4096)
      → k < 4096
      → contains b k ≡ 1
      → ((j : ℕ) → j < k → contains b j ≡ 0)
      → ((j : ℕ) → contains b' j ≡ (if k == j then 0 else contains b j))
      → IsValid b'
      → Fetches b (ret (some k, b'))

-- `fetch` never panics on a valid map: it takes the lowest position out and leaves the others,
-- or it returns `None` and the map as it was if the set is empty.
pub fetch-Fetches : (b : BitMap4096) → IsValid b → Fetches b (fetch b)
unfolding fetch
fetch-Fetches b v =
    let (k, found, low) = find_first_one-IsLowest b v in
    elim (dec_lt k 4096) [
      | yes lt ↦
          let (b', cleared, rest, valid) = clear_lem b v k lt in
          rw (found, leb_of_lt 4096 k lt, cleared)
            (lowest k b' lt (low.hit lt) low.below rest valid)
      | no ge ↦
          rw (found, leb_of_le 4096 k (omega arith)) (nothing λ j h. low.below j (omega arith))
    ]
