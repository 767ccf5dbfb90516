-- ===== src/Utils/BitMap4096/Laws.antt =====
-- The set of positions that the two levels of a `BitMap4096` stand for.
use native.Mathlib.Decide.{ℕ_discrete}
use rust_root_task_demo.Common.{
  ℕ, ◌/◌, ◌%◌, ◌<◌, ◌≡◌, ◌≢◌, refl, arith, length, get_or, ret, read_in_range, write_in_range,
  length-set, get_or-set_self, get_or-set_ne, length-replicate, get_or-replicate, if◌then◌else◌,
  ◌==◌, ==_self, ==_ne, Bool-cases, inl, inr, set as set_elem,
}
use rust_root_task_demo.Utils.BitMap64
use rust_root_task_demo.Utils.BitMap64.{
  BitMap64, member, IsWord, with_set, with_clear, member-with_set, member-with_clear,
  with_set-IsWord, with_clear-IsWord, set_in_range, clear_in_range, get_in_range, word_zero,
  member_of_word_zero, find_first_one_lem, find_first_zero_lem, member-new,
}
use rust_root_task_demo.Utils.BitMap4096.{BitMap4096, new, set, clear}

-- The word that holds the positions from `64 * i` on
abbrev pub word_of : BitMap4096 → ℕ → BitMap64
word_of b i = get_or b.l2 i BitMap64.new

-- 1 if the position is in the set
abbrev pub contains : BitMap4096 → ℕ → ℕ
contains b pos = member (word_of b (pos / 64)) (pos % 64)

pub record IsValid (b : BitMap4096) : Type 0 where
  pub words : length b.l2 ≡ 64
  pub summary_word : IsWord b.l1
  pub each_word : (i : ℕ) → IsWord (word_of b i)
  pub summary : (i : ℕ) → i < 64 → member b.l1 i ≡ (if (word_of b i).word == 0 then 0 else 1)

pub new-IsValid : IsValid new
unfolding new BitMap64.new
new-IsValid = record {
  words = length-replicate 64 BitMap64.new;
  summary_word = omega arith;
  each_word = λ i. rw (get_or-replicate 64 i BitMap64.new) (omega arith);
  summary = λ i h. rw (get_or-replicate 64 i BitMap64.new) (member-new i);
}

module _ (b : BitMap4096) (v : IsValid b) (pos : ℕ) (h : pos < 4096) where
  -- The map with the word of `pos` replaced and the summary given.
  abbrev replaced : BitMap64 → BitMap64 → BitMap4096
  replaced l1 w = record { l1 = l1; l2 = set_elem b.l2 (pos / 64) w }

  word_of-replaced :
      (l1 w : BitMap64) (i : ℕ)
      → word_of (replaced l1 w) i ≡ (if pos / 64 == i then w else word_of b i)
  word_of-replaced l1 w i = elim (ℕ_discrete (pos / 64) i) [
    | yes e ↦
        rw (← e, ==_self (pos / 64))
          (get_or-set_self b.l2 (pos / 64) w BitMap64.new (omega (arith, v.words)))
    | no ne ↦ rw (==_ne (pos / 64) i ne) (get_or-set_ne b.l2 (pos / 64) i w BitMap64.new ne)
  ]

  replaced-IsValid :
      (l1 w : BitMap64)
      → IsWord l1
      → IsWord w
      → ((i : ℕ)
          → i < 64
          → member l1 i ≡ (if pos / 64 == i then (if w.word == 0 then 0 else 1) else member b.l1 i))
      → IsValid (replaced l1 w)
  replaced-IsValid l1 w lw ww s = record {
    words = omega (arith, length-set b.l2 (pos / 64) w, v.words);
    summary_word = lw;
    each_word = λ i.
        rw (word_of-replaced l1 w i)
          (elim (Bool-cases (pos / 64 == i)) [ inl e ↦ rw e ww | inr e ↦ rw e (v.each_word i) ]);
    summary = λ i lt. rw (word_of-replaced l1 w i) (elim (Bool-cases (pos / 64 == i)) [
      | inl e ↦ ground (arith, s i lt, e)
      | inr e ↦ ground (arith, s i lt, e, v.summary i lt)
    ]);
  }

  contains-replaced :
      (l1 w : BitMap64) (x j : ℕ)
      → ((i : ℕ) → member w i ≡ (if pos % 64 == i then x else member (word_of b (pos / 64)) i))
      → contains (replaced l1 w) j ≡ (if pos == j then x else contains b j)
  contains-replaced l1 w x j m = elim (ℕ_discrete (pos / 64) (j / 64)) [
    | yes e ↦ ground (arith, word_of-replaced l1 w (j / 64), m (j % 64), same_word e)
    | no ne ↦ ground (arith, word_of-replaced l1 w (j / 64))
  ]
    where
      same_word : pos / 64 ≡ j / 64 → word_of b (pos / 64) ≡ word_of b (j / 64)
      same_word e = rw e refl

  in_word : pos / 64 < 64
  in_word = omega arith

  set_result : BitMap4096
  set_result = replaced (with_set b.l1 (pos / 64)) (with_set (word_of b (pos / 64)) (pos % 64))

  with_set-word : (w : BitMap64) (i : ℕ) → IsWord w → (with_set w i).word ≢ 0
  with_set-word w i lt e = omega (arith, member_of_word_zero (with_set w i) i e, one)
    where
      one : member (with_set w i) i ≡ 1
      one = rw (member-with_set w i i, ==_self i) refl

  -- `set` puts a position below 4096 into the set, and changes no other.
  pub set_lem :
      (b' : BitMap4096) × (set b pos ≡ ret b')
      × ((j : ℕ) → contains b' j ≡ (if pos == j then 1 else contains b j))
      × IsValid b'
  unfolding set set_result
  set_lem = (
    set_result,
    rw
        (
          set_in_range b.l1 (pos / 64) in_word,
          read_in_range b.l2 (pos / 64) BitMap64.new (omega (arith, v.words)),
          set_in_range (word_of b (pos / 64)) (pos % 64) (omega arith),
          write_in_range b.l2 (pos / 64) (with_set (word_of b (pos / 64)) (pos % 64))
              (omega (arith, v.words)),
        )
        refl,
    λ j.
        contains-replaced (with_set b.l1 (pos / 64)) (with_set (word_of b (pos / 64)) (pos % 64)) 1
          j (member-with_set (word_of b (pos / 64)) (pos % 64)),
    replaced-IsValid (with_set b.l1 (pos / 64)) (with_set (word_of b (pos / 64)) (pos % 64))
        (with_set-IsWord b.l1 (pos / 64) in_word v.summary_word)
        (with_set-IsWord (word_of b (pos / 64)) (pos % 64) (omega arith) (v.each_word (pos / 64)))
        λ i lt. ground (
          arith,
          member-with_set b.l1 (pos / 64) i,
          with_set-word (word_of b (pos / 64)) (pos % 64) (v.each_word (pos / 64)),
        ),
  )

  -- The word of `pos` after `clear`, and the summary that goes with it.
  abbrev rest_word : BitMap64
  rest_word = with_clear (word_of b (pos / 64)) (pos % 64)

  abbrev rest_summary : BitMap64
  rest_summary = if BitMap64.empty rest_word then with_clear b.l1 (pos / 64) else b.l1

  rest_summary_step :
      (if BitMap64.empty rest_word then BitMap64.clear b.l1 (pos / 64) else ret b.l1)
      ≡ ret rest_summary
  rest_summary_step = elim (Bool-cases (BitMap64.empty rest_word)) [
    | inl e ↦ rw (e, clear_in_range b.l1 (pos / 64) in_word) refl
    | inr e ↦ rw e refl
  ]

  rest_summary-IsWord : IsWord rest_summary
  rest_summary-IsWord = elim (Bool-cases (BitMap64.empty rest_word)) [
    | inl e ↦ rw e (with_clear-IsWord b.l1 (pos / 64) in_word v.summary_word)
    | inr e ↦ rw e v.summary_word
  ]

  cleared_zero : (word_of b (pos / 64)).word ≡ 0 → rest_word.word ≡ 0
  cleared_zero e =
      word_zero rest_word
        (with_clear-IsWord (word_of b (pos / 64)) (pos % 64) (omega arith) (v.each_word (pos / 64)))
        λ i lt. ground (
          arith,
          member-with_clear (word_of b (pos / 64)) (pos % 64) i (omega arith)
              (v.each_word (pos / 64)),
          member_of_word_zero (word_of b (pos / 64)) i e,
        )

  member-rest_summary :
      (i : ℕ)
      → i < 64
      → member rest_summary i
        ≡ (if pos / 64 == i then (if rest_word.word == 0 then 0 else 1) else member b.l1 i)
  unfolding BitMap64.empty
  member-rest_summary i lt = elim (Bool-cases (rest_word.word == 0)) [
    | inl e ↦ rw e (member-with_clear b.l1 (pos / 64) i in_word v.summary_word)
    | inr e ↦ rw e (ground (arith, e, cleared_zero, v.summary (pos / 64) in_word, same_summary))
  ]
    where
      same_summary : pos / 64 ≡ i → member b.l1 i ≡ member b.l1 (pos / 64)
      same_summary q = rw q refl

  -- `clear` takes a position below 4096 out of the set, and changes no other.
  pub clear_lem :
      (b' : BitMap4096) × (clear b pos ≡ ret b')
      × ((j : ℕ) → contains b' j ≡ (if pos == j then 0 else contains b j))
      × IsValid b'
  unfolding clear
  clear_lem = (
    replaced rest_summary rest_word,
    rw
        (
          read_in_range b.l2 (pos / 64) BitMap64.new (omega (arith, v.words)),
          clear_in_range (word_of b (pos / 64)) (pos % 64) (omega arith),
          write_in_range b.l2 (pos / 64) rest_word (omega (arith, v.words)),
          rest_summary_step,
        )
        refl,
    λ j. contains-replaced rest_summary rest_word 0 j (λ i.
        member-with_clear (word_of b (pos / 64)) (pos % 64) i (omega arith)
          (v.each_word (pos / 64))),
    replaced-IsValid rest_summary rest_word rest_summary-IsWord
        (with_clear-IsWord (word_of b (pos / 64)) (pos % 64) (omega arith) (v.each_word (pos / 64)))
        member-rest_summary,
  )
