-- ===== src/AsyncLib/Items.antt =====
-- What the items of two system calls of crates/example/src/async_lib.rs share, and the address that the
-- reply to a third is printed with.
use rust_root_task_demo.Common.{
  read_in_range, ret, ◌*◌, replicate, get_or, length, ltb_of_lt, arith, ap, refl, ◌↔◌, ◌≡◌, ◌<◌,
  ◌^◌, ◌%◌, ◌+◌, ℕ,
}
use rust_root_task_demo.NewBuffer.{IpcItem}
use rust_root_task_demo.AsyncLib.Replies.{printed_paddr}
use rust_root_task_demo.AsyncLib.Syscalls.{fill, syscall_item, cnode_copy, cnode_mint}

-- The item of `seL4_CNode_Mint` is the item of `seL4_CNode_Copy` with the same other arguments exactly
-- when the badge is a multiple of 2^16.
pub cnode_mint-eq-cnode_copy :
    (cid dest_root dest_index dest_depth src_root src_index src_depth cap_right badge : ℕ)
    → (cnode_mint cid dest_root dest_index dest_depth src_root src_index src_depth cap_right badge
        ≡ cnode_copy cid dest_root dest_index dest_depth src_root src_index src_depth cap_right)
      ↔ (badge % 2 ^ 16 ≡ 0)
unfolding cnode_mint cnode_copy syscall_item fill replicate
cnode_mint-eq-cnode_copy cid dest_root dest_index dest_depth src_root src_index src_depth cap_right
      badge =
    ((λ e. ap (λ (item : IpcItem). get_or item.extend_msg 7 0) e), (λ e. rw e refl))

paddr_sum :
    (e1 e2 e3 e4 : ℕ)
    → e1 < 2 ^ 16
    → e2 < 2 ^ 16
    → e3 < 2 ^ 16
    → e4 < 2 ^ 16
    → ((0 + e1) * 2 ^ 48 % 2 ^ 64 + e2 < 2 ^ 64)
      × (((0 + e1) * 2 ^ 48 % 2 ^ 64 + e2) * 2 ^ 32 % 2 ^ 64 ≡ e2 * 2 ^ 32)
paddr_sum e1 e2 e3 e4 h1 h2 h3 h4 = (omega (arith, h1, h2), omega (arith, h1, h2))

-- For a reply whose words 1 to 4 are there and below 2^16, the address that is printed is
-- `e2 * 2^48 + e3 * 2^16 + e4`, whatever the word 1 is, and nothing panics.
pub printed_paddr_lem :
    (item : IpcItem)
    → 4 < length item.extend_msg
    → get_or item.extend_msg 1 0 < 2 ^ 16
    → get_or item.extend_msg 2 0 < 2 ^ 16
    → get_or item.extend_msg 3 0 < 2 ^ 16
    → get_or item.extend_msg 4 0 < 2 ^ 16
    → printed_paddr item
      ≡ ret (
          get_or item.extend_msg 2 0 * 2 ^ 48
          + get_or item.extend_msg 3 0 * 2 ^ 16
          + get_or item.extend_msg 4 0)
unfolding printed_paddr
printed_paddr_lem item fits h1 h2 h3 h4 =
    let msg = item.extend_msg in
    let e1 = get_or item.extend_msg 1 0 in
    let e2 = get_or item.extend_msg 2 0 in
    let e3 = get_or item.extend_msg 3 0 in
    let e4 = get_or item.extend_msg 4 0 in
    let (first, second) = paddr_sum e1 e2 e3 e4 h1 h2 h3 h4 in
    let third : (e2 * 2 ^ 32 + e3) * 2 ^ 16 % 2 ^ 64 ≡ e2 * 2 ^ 48 + e3 * 2 ^ 16 =
      omega (arith, h2, h3) in
    rw
      (
        read_in_range item.extend_msg 1 0 (omega (arith, fits)),
        read_in_range item.extend_msg 2 0 (omega (arith, fits)),
        read_in_range item.extend_msg 3 0 (omega (arith, fits)),
        read_in_range item.extend_msg 4 0 (omega (arith, fits)),
        ltb_of_lt ((0 + e1) * 2 ^ 48 % 2 ^ 64 + e2) (2 ^ 64) first,
        second,
        ltb_of_lt (e2 * 2 ^ 32 + e3) (2 ^ 64) (omega (arith, h2, h3)),
        third,
        ltb_of_lt (e2 * 2 ^ 48 + e3 * 2 ^ 16 + e4) (2 ^ 64) (omega (arith, h2, h3, h4)),
      )
      refl
