-- ===== src/AsyncLib/Putstring.antt =====
-- The pieces in which `seL4_Putstring` of crates/example/src/async_lib.rs sends a text.
use native.Mathlib.Decide.{dec_lt}
use native.Mathlib.Nat.{mod-eq_of_lt}
use rust_root_task_demo.Common.{
  length-drop, take-append-drop, length-replicate, replicate, ltb_of_le, ltb_of_lt, append-nil, map,
  sym, ◌^◌, ◌%◌, write_in_range, read_in_range, ret, get_or-set_ne, get_or-set_self, length-set,
  drop, take, set, get_or, length, ltb, arith, [], List, ap₂, ap, refl, suc, zero, ◌∙◌,
  if◌then◌else◌, ◌++◌, ◌∷◌, ◌≡◌, ◌<◌, ◌≤◌, ◌/◌, ◌*◌, ◌-◌, ◌+◌, ℕ,
}
use rust_root_task_demo.NewBuffer.{IpcItem, max_ipc_msg_len}
use rust_root_task_demo.MessageInfo
use rust_root_task_demo.MessageInfo.{label_into}
use rust_root_task_demo.AsyncLib.Syscalls.{copy_chars, putstring_item, putstring_from, putstring}

-- The characters that an item carries: as many as its first word says, from the second on.
abbrev pub payload : IpcItem → List ℕ
payload item = take (get_or item.extend_msg 0 0) (drop 1 item.extend_msg)

abbrev pub concat : List (List ℕ) → List ℕ
concat [] = []
concat (xs ∷ rest) = xs ++ concat rest

-- Copying `num` characters to the slots from `j + 1` on.
record Copied (num j offset : ℕ) (chars msg msg' : List ℕ) : Type 0 where
  pub same_length : length msg' ≡ length msg
  pub below : (k : ℕ) → k ≤ j → get_or msg' k 0 ≡ get_or msg k 0
  pub copied : (k : ℕ) → k < num → get_or msg' (j + 1 + k) 0 ≡ get_or chars (offset + j + k) 0

copy_chars-Copied :
    (num j offset : ℕ) (chars msg : List ℕ)
    → j + num < length msg
    → offset + j + num ≤ length chars
    → (msg' : List ℕ) × (copy_chars num j offset chars msg ≡ ret msg')
      × Copied num j offset chars msg msg'
unfolding copy_chars
copy_chars-Copied zero j offset chars msg fits has = (
  msg,
  refl,
  record { same_length = refl; below = λ k h. refl; copied = λ k h. absurd (omega (arith, h)) },
)
copy_chars-Copied (suc num) j offset chars msg fits has =
    let c = get_or chars (offset + j) 0 in
    let (msg', copies, rest) =
      copy_chars-Copied num (j + 1) offset chars (set msg (j + 1) c)
        (omega (arith, fits, length-set msg (j + 1) c)) (omega (arith, has)) in
    (
      msg',
      rw
          (
            read_in_range chars (offset + j) 0 (omega (arith, has)),
            write_in_range msg (j + 1) c (omega (arith, fits)),
          )
          copies,
      record {
        same_length = rest.same_length ∙ length-set msg (j + 1) c;
        below = λ k h.
            rest.below k (omega (arith, h))
            ∙ get_or-set_ne msg (j + 1) k c 0 (λ e. omega (arith, e, h));
        copied = elim [
          | zero ↦ λ h.
              ap (λ (i : ℕ). get_or msg' i 0) (omega arith)
              ∙ rest.below (j + 1) (omega arith)
              ∙ get_or-set_self msg (j + 1) c 0 (omega (arith, fits))
              ∙ ap (λ (i : ℕ). get_or chars i 0) (omega arith)
          | suc k ↦ λ h.
              ap (λ (i : ℕ). get_or msg' i 0) (omega arith)
              ∙ rest.copied k (omega (arith, h))
              ∙ ap (λ (i : ℕ). get_or chars i 0) (omega arith)
        ];
      },
    )

-- Two lists agree on a stretch, place by place.
take_ext :
    (n : ℕ) (xs ys : List ℕ)
    → n ≤ length xs
    → n ≤ length ys
    → ((k : ℕ) → k < n → get_or xs k 0 ≡ get_or ys k 0)
    → take n xs ≡ take n ys
take_ext zero xs ys hx hy h = refl
take_ext (suc n) [] ys hx hy h = absurd (omega (arith, hx))
take_ext (suc n) (x ∷ xs) [] hx hy h = absurd (omega (arith, hy))
take_ext (suc n) (x ∷ xs) (y ∷ ys) hx hy h =
    ap₂ ◌∷◌ (h 0 (omega arith)) (
      take_ext n xs ys (omega (arith, hx)) (omega (arith, hy))
        λ k lt. h (suc k) (omega (arith, lt)))

get_or-drop : (n : ℕ) (xs : List ℕ) (k : ℕ) → get_or (drop n xs) k 0 ≡ get_or xs (n + k) 0
get_or-drop zero xs k = ap (λ (i : ℕ). get_or xs i 0) (omega arith)
get_or-drop (suc n) [] k = refl
get_or-drop (suc n) (x ∷ xs) k =
    let same : suc (n + k) ≡ suc n + k = omega arith in
    get_or-drop n xs k ∙ ap (λ (i : ℕ). get_or (x ∷ xs) i 0) same

drop_all : (n : ℕ) (xs : List ℕ) → length xs ≤ n → drop n xs ≡ []
drop_all zero [] h = refl
drop_all zero (x ∷ xs) h = absurd (omega (arith, h))
drop_all (suc n) [] h = refl
drop_all (suc n) (x ∷ xs) h = drop_all n xs (omega (arith, h))

take_all : (n : ℕ) (xs : List ℕ) → length xs ≤ n → take n xs ≡ xs
take_all zero [] h = refl
take_all zero (x ∷ xs) h = absurd (omega (arith, h))
take_all (suc n) [] h = refl
take_all (suc n) (x ∷ xs) h = ap (λ (ys : List ℕ). x ∷ ys) (take_all n xs (omega (arith, h)))

drop-drop : (n m : ℕ) (xs : List ℕ) → drop m (drop n xs) ≡ drop (n + m) xs
drop-drop zero m xs = ap (λ (k : ℕ). drop k xs) (omega arith)
drop-drop (suc n) m [] = drop_all m [] (omega arith) ∙ sym (drop_all (suc n + m) [] (omega arith))
drop-drop (suc n) m (x ∷ xs) =
    let same : suc (n + m) ≡ suc n + m = omega arith in
    drop-drop n m xs ∙ ap (λ (k : ℕ). drop k (x ∷ xs)) same

-- The item of a round that carries `num` characters.
abbrev round_num : List ℕ → ℕ → ℕ
round_num chars i = if ltb i (length chars / 7) then 7 else length chars - 7 * i

round_num_cases :
    (chars : List ℕ) (i : ℕ)
    → i ≤ length chars / 7
    → (round_num chars i ≤ 7) × (i * 7 + round_num chars i ≤ length chars)
round_num_cases chars i h = ground arith

putstring_item_lem :
    (cid : ℕ) (chars : List ℕ) (i : ℕ)
    → i ≤ length chars / 7
    → (item : IpcItem) × (putstring_item cid chars i ≡ ret item)
      × (payload item ≡ take (round_num chars i) (drop (i * 7) chars))
unfolding putstring_item
putstring_item_lem cid chars i h =
    let (small, inside) = round_num_cases chars i h in
    let sixteen : length (replicate {A = ℕ} max_ipc_msg_len 0) ≡ 16 =
      length-replicate max_ipc_msg_len 0 in
    let sized : length (set (replicate {A = ℕ} max_ipc_msg_len 0) 0 (round_num chars i % 2 ^ 16))
        ≡ 16 =
      length-set (replicate {A = ℕ} max_ipc_msg_len 0) 0 (round_num chars i % 2 ^ 16) ∙ sixteen in
    let (msg', copies, c) =
      copy_chars-Copied (round_num chars i) 0 (i * 7) chars
        (set (replicate {A = ℕ} max_ipc_msg_len 0) 0 (round_num chars i % 2 ^ 16))
        (omega (arith, small, sized)) (omega (arith, inside)) in
    let count : get_or msg' 0 0 ≡ round_num chars i =
      c.below 0 (omega arith)
      ∙ get_or-set_self (replicate {A = ℕ} max_ipc_msg_len 0) 0 (round_num chars i % 2 ^ 16) 0
          (omega (arith, sixteen))
      ∙ mod-eq_of_lt (omega (arith, small)) in
    (
      record { cid = cid; msg_info = label_into MessageInfo.put_string; extend_msg = msg' },
      rw
          (
            write_in_range (replicate {A = ℕ} max_ipc_msg_len 0) 0 (round_num chars i % 2 ^ 16)
                (omega (arith, sixteen)),
            copies,
          )
          refl,
      ap (λ (k : ℕ). take k (drop 1 msg')) count
          ∙ take_ext (round_num chars i) (drop 1 msg') (drop (i * 7) chars)
              (omega (arith, length-drop 1 msg', c.same_length, sized, small))
              (omega (arith, length-drop (i * 7) chars, inside))
              (λ k lt.
                get_or-drop 1 msg' k
                ∙ c.copied k lt
                ∙ ap (λ (j : ℕ). get_or chars j 0) (sum_zero (i * 7) k)
                ∙ sym (get_or-drop (i * 7) chars k)),
    )
  where
    sum_zero : (a k : ℕ) → a + 0 + k ≡ a + k
    sum_zero a k = omega arith

-- The characters of a round and those after it are the characters from the round on.
round_split :
    (chars : List ℕ) (i : ℕ)
    → i ≤ length chars / 7
    → take (round_num chars i) (drop (i * 7) chars) ++ drop ((i + 1) * 7) chars ≡ drop (i * 7) chars
round_split chars i h = elim (dec_lt i (length chars / 7)) [
  | yes lt ↦ rw (ltb_of_lt i (length chars / 7) lt) (
      ap (λ (ys : List ℕ). take 7 (drop (i * 7) chars) ++ ys)
        (ap (λ (k : ℕ). drop k chars) (next_round i) ∙ sym (drop-drop (i * 7) 7 chars))
      ∙ take-append-drop 7 (drop (i * 7) chars))
  | no ge ↦ rw (ltb_of_le i (length chars / 7) (omega (arith, ge))) (
      ap (λ (ys : List ℕ). take (length chars - 7 * i) (drop (i * 7) chars) ++ ys)
        (drop_all ((i + 1) * 7) chars (omega (arith, ge)))
      ∙ append-nil (take (length chars - 7 * i) (drop (i * 7) chars))
      ∙ take_all (length chars - 7 * i) (drop (i * 7) chars)
          (omega (arith, length-drop (i * 7) chars)))
]
  where
    next_round : (i : ℕ) → (i + 1) * 7 ≡ i * 7 + 7
    next_round i = omega arith

putstring_from_lem :
    (left i cid : ℕ) (chars : List ℕ)
    → i + left ≡ length chars / 7 + 1
    → (items : List IpcItem) × (putstring_from left i cid chars ≡ ret items)
      × (length items ≡ left)
      × (concat (map payload items) ≡ drop (i * 7) chars)
unfolding putstring_from
putstring_from_lem zero i cid chars h =
    ([], refl, refl, sym (drop_all (i * 7) chars (omega (arith, h))))
putstring_from_lem (suc left) i cid chars h =
    let inside : i ≤ length chars / 7 = omega (arith, h) in
    let (item, returns, carries) = putstring_item_lem cid chars i inside in
    let (items, follow, counted, rest) =
      putstring_from_lem left (i + 1) cid chars (omega (arith, h)) in
    (
      item ∷ items,
      rw (returns, follow) refl,
      ap suc counted,
      ap₂ ◌++◌ carries rest ∙ round_split chars i inside,
    )

-- `seL4_Putstring` never panics: it sends one item more than a seventh of the text's length, and the
-- characters that the items carry, in the order sent, are the text.
pub putstring_lem :
    (cid : ℕ) (chars : List ℕ)
    → (items : List IpcItem) × (putstring cid chars ≡ ret items)
      × (length items ≡ length chars / 7 + 1)
      × (concat (map payload items) ≡ chars)
unfolding putstring
putstring_lem cid chars = putstring_from_lem (length chars / 7 + 1) 0 cid chars (omega arith)
