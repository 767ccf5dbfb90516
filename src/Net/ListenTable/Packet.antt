-- ===== src/Net/ListenTable/Packet.antt =====
-- What `listen` and `incoming_tcp_packet` of crates/example/src/net/listen_table.rs do to the table,
-- at a port that no endpoint waits for.
use rust_root_task_demo.Common.{
  Outcome, not, ◌==◌, Outcome-cases, write_in_range, panic, read_in_range, read, drop, set,
  Bool-cases, leb, arith, false, true, inr, inl, ap, sym, refl, ◌∙◌, ◌⊎◌, ret, ok, Result, get_or,
  length, [], List, some, none, Option, ◌++◌, ◌∷◌, ◌≡◌, ◌<◌, ℕ,
}
use rust_root_task_demo.Executor
use rust_root_task_demo.Net.{IpEndpoint, IpListenEndpoint, Smoltcp, ListenTableEntry, Service}
use rust_root_task_demo.Net.ListenTable.{
  listen_queue_size, port_num, entry_or_new, can_accept, listen, incoming_tcp_packet, packet_entry,
  packet_for, wake_blocked, notify_blocked,
}

module _ {A : Type 0} where
  -- An entry that no endpoint waits for.
  abbrev pub entry : IpListenEndpoint A → List ℕ → List ℕ → ListenTableEntry A
  entry a q xs = record { listen_endpoint = a; syn_queue = q; block_cids = xs; block_ep = [] }

  -- The entry after one more coroutine listens.
  abbrev pub joined : IpListenEndpoint A → Option (ListenTableEntry A) → ℕ → ℕ → ListenTableEntry A
  joined ep o handler cid = record (entry_or_new ep o) {
    syn_queue = (entry_or_new ep o).syn_queue ++ (handler ∷ []);
    block_cids = (entry_or_new ep o).block_cids ++ (cid ∷ []);
  }

  -- The coroutines that wait at a port.
  unfoldable pub blocked : Option (ListenTableEntry A) → List ℕ
  blocked none = []
  blocked (some en) = en.block_cids

  unfoldable pub queued : Option (ListenTableEntry A) → List ℕ
  queued none = []
  queued (some en) = en.syn_queue

  unfoldable pub endpoints : Option (ListenTableEntry A) → List ℕ
  endpoints none = []
  endpoints (some en) = en.block_ep

module _ {ℓ} {F : Type ℓ} {S A : Type 0} where
  -- The entry of a port.
  abbrev pub entry_of : Service F S A → ℕ → Option (ListenTableEntry A)
  entry_of s p = get_or s.tcp p none

module _ {ℓ} {F : Type ℓ} {S A : Type 0} where
  -- Two results of one call have the same table.
  pub tcp-eq {κ} :
      {R : Type κ} (m : Outcome (R × Service F S A)) (r r' : R) (s s' : Service F S A)
      → m ≡ ret (r, s)
      → m ≡ ret (r', s')
      → s'.tcp ≡ s.tcp
  tcp-eq m r r' s s' h h' = let same : s' ≡ s = cc in ap (λ (z : Service F S A). z.tcp) same

  -- What a `listen` that returns does to the table.
  pub listen-tcp :
      (s s' : Service F S A) (ep : IpListenEndpoint A) (handler cid : ℕ) (r : Result (Unit {0}))
      → length s.tcp ≡ port_num
      → ep.port < port_num
      → listen s ep handler cid ≡ ret (r, s')
      → s'.tcp ≡ set s.tcp ep.port (some (joined ep (entry_of s ep.port) handler cid))
  unfolding listen
  listen-tcp s s' ep handler cid r size low eq = elim (Bool-cases (not (ep.port == 0))) [
    | inr zero_port ↦
        let all_fails : listen s ep handler cid ≡ panic = rw zero_port refl in absurd (cc)
    | inl some_port ↦
        tcp-eq (listen s ep handler cid) (ok tt) r
          (record s { tcp = set s.tcp ep.port (some (joined ep (entry_of s ep.port) handler cid)) })
          s'
          (rw
            (
              some_port,
              read_in_range s.tcp ep.port none (omega (arith, size, low)),
              write_in_range s.tcp ep.port (some (joined ep (entry_of s ep.port) handler cid))
                  (omega (arith, size, low)),
            )
            refl)
          eq
  ]

module _ {ℓ} {F : Type ℓ} {S K A : Type 0} (net : Smoltcp S K A) where
  -- A packet that is not dropped takes the first coroutine that waits.
  taken-tcp :
      (s s' : Service F S A) (dst : IpEndpoint A) (a : IpListenEndpoint A) (q xs : List ℕ)
      → length s.tcp ≡ port_num
      → dst.port < port_num
      → can_accept net (entry a q xs) dst.addr ≡ true
      → leb listen_queue_size (length q) ≡ false
      → packet_for net s dst (entry a q xs) ≡ ret s'
      → s'.tcp ≡ set s.tcp dst.port (some (entry a q (drop 1 xs)))
  unfolding packet_for wake_blocked notify_blocked
  taken-tcp s s' dst a q [] size low accepted room eq =
      let returns : packet_for net s dst (entry a q [])
          ≡ ret (record s { tcp = set s.tcp dst.port (some (entry a q [])) }) =
        rw
          (
            accepted,
            room,
            write_in_range s.tcp dst.port (some (entry a q [])) (omega (arith, size, low)),
          )
          refl in
      let same : s' ≡ record s { tcp = set s.tcp dst.port (some (entry a q [])) } = cc in
      ap (λ (z : Service F S A). z.tcp) same
  taken-tcp s s' dst a q (c ∷ cs) size low accepted room eq =
      elim (Outcome-cases (Executor.wake s.world.executor c)) [
        | inl fails ↦
            let all_fails : packet_for net s dst (entry a q (c ∷ cs)) ≡ panic =
              rw (accepted, room, fails) refl in
            absurd (cc)
        | inr (e, wakes_it) ↦
            let returns : packet_for net s dst (entry a q (c ∷ cs))
                ≡ ret (record s {
                  world = record (s.world) { executor = e };
                  tcp = set s.tcp dst.port (some (entry a q cs));
                }) =
              rw
                (
                  accepted,
                  room,
                  wakes_it,
                  write_in_range s.tcp dst.port (some (entry a q cs)) (omega (arith, size, low)),
                )
                refl in
            let same : s' ≡ record s {
              world = record (s.world) { executor = e };
              tcp = set s.tcp dst.port (some (entry a q cs));
            } =
              cc in
            ap (λ (z : Service F S A). z.tcp) same
      ]

  module _ (s s' : Service F S A) (dst : IpEndpoint A) (a : IpListenEndpoint A) (q xs : List ℕ)
      (size : length s.tcp ≡ port_num) (low : dst.port < port_num)
      (there : entry_of s dst.port ≡ some (entry a q xs)) where
    reads : read s.tcp dst.port ≡ ret (some (entry a q xs))
    reads = read_in_range s.tcp dst.port none (omega (arith, size, low)) ∙ ap ret there

    -- A packet that is dropped.
    dropped :
        (can_accept net (entry a q xs) dst.addr ≡ false)
          ⊎ ((can_accept net (entry a q xs) dst.addr ≡ true)
              × (leb listen_queue_size (length q) ≡ true))
        → incoming_tcp_packet net s dst ≡ ret s
    unfolding incoming_tcp_packet packet_entry packet_for
    dropped (inl refused) = rw (reads, refused) refl
    dropped (inr (accepted, full)) = rw (reads, accepted, full) refl

    at_entry : incoming_tcp_packet net s dst ≡ packet_for net s dst (entry a q xs)
    unfolding incoming_tcp_packet packet_entry
    at_entry = rw reads refl

    -- What a packet does to the table, at a port without endpoints.
    pub packet-tcp :
        incoming_tcp_packet net s dst ≡ ret s'
        → (s'.tcp ≡ s.tcp) ⊎ (s'.tcp ≡ set s.tcp dst.port (some (entry a q (drop 1 xs))))
    packet-tcp eq = elim (Bool-cases (can_accept net (entry a q xs) dst.addr)) [
      | inr refused ↦ inl (same_tcp (dropped (inl refused)))
      | inl accepted ↦ elim (Bool-cases (leb listen_queue_size (length q))) [
        | inl full ↦ inl (same_tcp (dropped (inr (accepted, full))))
        | inr room ↦ inr (taken-tcp s s' dst a q xs size low accepted room (sym (at_entry) ∙ eq))
      ]
    ]
      where
        same_tcp : incoming_tcp_packet net s dst ≡ ret s → s'.tcp ≡ s.tcp
        same_tcp returns = let same : s' ≡ s = cc in ap (λ (z : Service F S A). z.tcp) same

  -- A packet for a port where nobody listens.
  pub incoming_tcp_packet-none :
      (s : Service F S A) (dst : IpEndpoint A)
      → length s.tcp ≡ port_num
      → dst.port < port_num
      → entry_of s dst.port ≡ none
      → incoming_tcp_packet net s dst ≡ ret s
  unfolding incoming_tcp_packet packet_entry
  incoming_tcp_packet-none s dst size low free =
      rw (read_in_range s.tcp dst.port none (omega (arith, size, low)), free) refl
