-- ===== src/ImageUtils.antt =====
-- crates/example/src/image_utils.rs: physical addresses of the frames of the user image. The kernel's
-- answer to `frame_get_address`, the bounds of the image that the linker sets, and the address of
-- the heap are parameters. Overflow checks are on, in 64 bits.
use rust_root_task_demo.Common.{
  assert, unwrap_ok, panic, ret, Outcome, Result, leb, ltb, ◌>>◌, ◌>>=◌, if◌then◌else◌, ◌==◌, ◌^◌,
  ◌%◌, ◌/◌, ◌*◌, ◌-◌, ◌+◌, ℕ,
}

abbrev pub granule_size : ℕ
granule_size = 4096

-- A sum and a difference that panic out of range
abbrev pub add_checked : ℕ → ℕ → Outcome ℕ
add_checked a b = if ltb (a + b) (2 ^ 64) then ret (a + b) else panic

abbrev pub sub_checked : ℕ → ℕ → Outcome ℕ
sub_checked a b = if leb b a then ret (a - b) else panic

unfoldable pub round_down : ℕ → ℕ → ℕ
round_down n b = n - n % b

-- `usize::next_multiple_of`, for a result below `2 ^ 64`
abbrev pub next_multiple_of : ℕ → ℕ → ℕ
next_multiple_of n b = if n % b == 0 then n else n + (b - n % b)

-- `get_user_image_footprint`, as its start and its end
unfoldable pub get_user_image_footprint : ℕ → ℕ → ℕ × ℕ
get_user_image_footprint executable_start image_end =
    (round_down executable_start granule_size, next_multiple_of image_end granule_size)

-- What the functions of `UserImageUtils` read: the user image frames of the boot info, as a range
-- of slots, the linker's symbols, and the answers of the kernel
pub record Image : Type 0 where
  pub frames_start : ℕ
  pub frames_end : ℕ
  pub executable_start : ℕ
  pub image_end : ℕ
  pub frame_get_address : ℕ → Result ℕ

unfoldable pub get_user_image_frame_slot : Image → ℕ → Outcome ℕ
get_user_image_frame_slot image vaddr = do
  assert (vaddr % granule_size == 0)
  let (start, end) = get_user_image_footprint image.executable_start image.image_end
  let num_user_frames = image.frames_end - image.frames_start
  assert (end - start == num_user_frames * granule_size)
  offset ← sub_checked vaddr start
  add_checked image.frames_start (offset / granule_size)

unfoldable pub get_user_image_frame_paddr : Image → ℕ → Outcome ℕ
get_user_image_frame_paddr image vaddr = do
  let offset = vaddr % 4096
  frame_cap ← get_user_image_frame_slot image (vaddr - offset)
  paddr ← unwrap_ok (image.frame_get_address frame_cap)
  add_checked paddr offset

-- `init`: the value of `HEAP_P_V_OFFSET`
unfoldable pub init : Image → ℕ → Outcome ℕ
init image heap_mem = do
  paddr_start ← get_user_image_frame_paddr image heap_mem
  sub_checked paddr_start heap_mem

unfoldable pub get_heap_paddr : ℕ → ℕ → Outcome ℕ
get_heap_paddr heap_p_v_offset vaddr = add_checked vaddr heap_p_v_offset

unfoldable pub get_heap_vaddr : ℕ → ℕ → Outcome ℕ
get_heap_vaddr heap_p_v_offset paddr = sub_checked paddr heap_p_v_offset
