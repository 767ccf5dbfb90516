-- ===== src/Net/Message.antt =====
-- crates/example/src/net/message.rs: the items that a client and the network service exchange, as
-- they are built and as they are read.
use rust_root_task_demo.Common.{
  read, assert, ret, Outcome, replicate, set, ltb, arith, [], List, ap, refl, ◌>>◌, ◌>>=◌,
  if◌then◌else◌, ◌==◌, ◌∷◌, ◌≡◌, ◌<◌, ◌^◌, ◌%◌, ◌/◌, ◌*◌, ◌+◌, ℕ,
}
use rust_root_task_demo.NewBuffer.{IpcItem, new_item}

pub data MessageType : Type 0 where
  reserve net_poll_req listen_type listen_reply_type send_type send_reply_type : MessageType
  recv_type recv_reply_type : MessageType

-- `as u32`
unfoldable pub type_number : MessageType → ℕ
type_number reserve = 0
type_number net_poll_req = 1
type_number listen_type = 2
type_number listen_reply_type = 3
type_number send_type = 4
type_number send_reply_type = 5
type_number recv_type = 6
type_number recv_reply_type = 7

-- The type that a number below 8 is transmuted to
unfoldable pub type_of_number : ℕ → MessageType
type_of_number n =
    if n == 0
    then reserve
    else if n == 1
    then net_poll_req
    else if n == 2
    then listen_type
    else if n == 3
    then listen_reply_type
    else if n == 4
    then send_type
    else if n == 5
    then send_reply_type
    else if n == 6
    then recv_type
    else recv_reply_type

-- An item with words set, in the order written; `as u16` cuts each.
unfoldable pub with_words : ℕ → MessageType → List (ℕ × ℕ) → IpcItem
with_words cid type words = record {
  cid = cid;
  msg_info = type_number type;
  extend_msg = write_words words new_item.extend_msg;
}
  where
    write_words : List (ℕ × ℕ) → List ℕ → List ℕ
    write_words [] msg = msg
    write_words ((i, v) ∷ rest) msg = write_words rest (set msg i (v % 2 ^ 16))

-- The address of a buffer, in the words 4 to 7, the lowest 16 bits first
abbrev pub address_words : ℕ → List (ℕ × ℕ)
address_words ptr = (4, ptr) ∷ (5, ptr / 2 ^ 16) ∷ (6, ptr / 2 ^ 32) ∷ (7, ptr / 2 ^ 48) ∷ []

-- A socket handle is the number that it is transmuted to, and a buffer is its address.
unfoldable pub listen : ℕ → ℕ → IpcItem
listen cid port = with_words cid listen_type ((0, port) ∷ [])

unfoldable pub listen_reply : ℕ → ℕ → IpcItem
listen_reply cid handler = with_words cid listen_reply_type ((0, handler) ∷ [])

unfoldable pub send : ℕ → ℕ → ℕ → ℕ → IpcItem
send cid handler buffer len =
    with_words cid send_type ((0, handler) ∷ (1, len) ∷ address_words buffer)

unfoldable pub send_reply : ℕ → ℕ → IpcItem
send_reply cid send_size = with_words cid send_reply_type ((1, send_size) ∷ [])

unfoldable pub recv : ℕ → ℕ → ℕ → ℕ → IpcItem
recv cid handler buffer len =
    with_words cid recv_type ((0, handler) ∷ (1, len) ∷ address_words buffer)

unfoldable pub recv_reply : ℕ → ℕ → IpcItem
recv_reply cid read_size = with_words cid recv_reply_type ((1, read_size) ∷ [])

unfoldable pub get_cid : IpcItem → ℕ
get_cid item = item.cid

unfoldable pub get_port : IpcItem → Outcome ℕ
get_port item = read item.extend_msg 0

unfoldable pub get_type : IpcItem → Outcome MessageType
get_type item = do assert (ltb item.msg_info 8); ret (type_of_number (item.msg_info % 2 ^ 8))

unfoldable pub get_socket_handler : IpcItem → Outcome ℕ
get_socket_handler item = read item.extend_msg 0

unfoldable pub get_len : IpcItem → Outcome ℕ
get_len item = read item.extend_msg 1

unfoldable pub get_buffer : IpcItem → Outcome ℕ
get_buffer item = do
  w4 ← read item.extend_msg 4
  w5 ← read item.extend_msg 5
  w6 ← read item.extend_msg 6
  w7 ← read item.extend_msg 7
  ret (w4 + w5 * 2 ^ 16 + w6 * 2 ^ 32 + w7 * 2 ^ 48)

-- The four words of an address give the address back.
address_words_lem :
    (p : ℕ)
    → p < 2 ^ 64
    → p % 2 ^ 16
        + p / 2 ^ 16 % 2 ^ 16 * 2 ^ 16
        + p / 2 ^ 32 % 2 ^ 16 * 2 ^ 32
        + p / 2 ^ 48 % 2 ^ 16 * 2 ^ 48
      ≡ p
address_words_lem p h = omega (arith, h)

-- What the decoder reads from a request to send or to receive: the id of the caller, the type of
-- the request, the address of the buffer, and the handle and the length cut to 16 bits. It panics
-- on none of them.
pub decode-request :
    (cid handler buffer len : ℕ)
    → buffer < 2 ^ 64
    → ((get_type (send cid handler buffer len) ≡ ret send_type)
        × (get_cid (send cid handler buffer len) ≡ cid)
        × (get_socket_handler (send cid handler buffer len) ≡ ret (handler % 2 ^ 16))
        × (get_len (send cid handler buffer len) ≡ ret (len % 2 ^ 16))
        × (get_buffer (send cid handler buffer len) ≡ ret buffer))
      × ((get_type (recv cid handler buffer len) ≡ ret recv_type)
          × (get_cid (recv cid handler buffer len) ≡ cid)
          × (get_socket_handler (recv cid handler buffer len) ≡ ret (handler % 2 ^ 16))
          × (get_len (recv cid handler buffer len) ≡ ret (len % 2 ^ 16))
          × (get_buffer (recv cid handler buffer len) ≡ ret buffer))
unfolding send recv with_words get_type get_cid get_socket_handler get_len get_buffer type_number
    type_of_number new_item replicate
decode-request cid handler buffer len h =
    let whole = ap ret (address_words_lem buffer h) in
    ((refl, refl, refl, refl, whole), (refl, refl, refl, refl, whole))

-- What the decoder reads from the other items: the caller, the type, and the port, the handle or
-- the size of the reply cut to 16 bits.
pub decode-others :
    (cid n : ℕ)
    → ((get_type (listen cid n) ≡ ret listen_type)
        × (get_cid (listen cid n) ≡ cid)
        × (get_port (listen cid n) ≡ ret (n % 2 ^ 16)))
      × ((get_type (listen_reply cid n) ≡ ret listen_reply_type)
          × (get_cid (listen_reply cid n) ≡ cid)
          × (get_socket_handler (listen_reply cid n) ≡ ret (n % 2 ^ 16)))
      × ((get_type (send_reply cid n) ≡ ret send_reply_type)
          × (get_cid (send_reply cid n) ≡ cid)
          × (get_len (send_reply cid n) ≡ ret (n % 2 ^ 16)))
      × ((get_type (recv_reply cid n) ≡ ret recv_reply_type)
          × (get_cid (recv_reply cid n) ≡ cid)
          × (get_len (recv_reply cid n) ≡ ret (n % 2 ^ 16)))
unfolding listen listen_reply send_reply recv_reply with_words get_type get_cid get_port
    get_socket_handler get_len type_number type_of_number new_item replicate
decode-others cid n =
    ((refl, refl, refl), (refl, refl, refl), (refl, refl, refl), (refl, refl, refl))
