-- ===== src/Net/ListenTable/Aligned/Accepts.antt =====
-- The entry of a port of crates/example/src/net/listen_table.rs after `accept`.
use rust_root_task_demo.Common.{
  Outcome-cases, write_in_range, write, panic, false, read_in_range, read, true, set, arith, inr,
  inl, ap, refl, ◌∙◌, ret, ok, Result, length, List, some, none, ◌++◌, ◌∷◌, ◌≡◌, ◌<◌, ℕ,
}
use rust_root_task_demo.Net.{IpEndpoint, IpListenEndpoint, Smoltcp, Service}
use rust_root_task_demo.Net.ListenTable.{
  is_connected, port_num, accept, accept_from, accept_entry, is_connected, get_addr_tuple,
}
use rust_root_task_demo.Net.ListenTable.Packet.{entry, entry_of, tcp-eq}
use rust_root_task_demo.Net.ListenTable.Aligned.{
  Listener, handles, cids, Aligned, unused, used, IsAligned, written_size, written_entry,
}

module _ {ℓ} {F : Type ℓ} {S K A : Type 0} (net : Smoltcp S K A) (p : ℕ) where
  module _ (in_range : p < port_num) where
    -- The entry holds the socket of the listener that has been woken first.
    pub first_in_front :
        (s : Service F S A) (l : Listener) (woken waiting : List Listener)
        → IsAligned p s (l ∷ woken) waiting
        → (a : IpListenEndpoint A) × (read s.tcp p
            ≡ ret (some (entry a (l.handle ∷ handles (woken ++ waiting)) (cids waiting))))
    first_in_front s l woken waiting v = at_entry v.holds
      where
        at_entry :
            Aligned (entry_of s p) (l ∷ woken) waiting
            → (a : IpListenEndpoint A) × (read s.tcp p
                ≡ ret (some (entry a (l.handle ∷ handles (woken ++ waiting)) (cids waiting))))
        at_entry (unused free some_woken _) = cc
        at_entry (used a there) =
            (a, read_in_range s.tcp p none (omega (arith, v.size, in_range)) ∙ ap ret there)

    -- The service after the first socket is taken off the queue of the port.
    abbrev pub taken : Service F S A → IpListenEndpoint A → List ℕ → List ℕ → Service F S A
    taken s a q xs = record s { tcp = set s.tcp p (some (entry a q xs)) }

    pub writes :
        (s : Service F S A) (a : IpListenEndpoint A) (q xs : List ℕ)
        → length s.tcp ≡ port_num
        → write s.tcp p (some (entry a q xs)) ≡ ret (set s.tcp p (some (entry a q xs)))
    writes s a q xs size =
        write_in_range s.tcp p (some (entry a q xs)) (omega (arith, size, in_range))

    taken-IsAligned :
        (s s' : Service F S A) (woken waiting : List Listener) (a : IpListenEndpoint A)
        → length s.tcp ≡ port_num
        → s'.tcp ≡ set s.tcp p (some (entry a (handles (woken ++ waiting)) (cids waiting)))
        → IsAligned p s' woken waiting
    taken-IsAligned s s' woken waiting a size eq = record {
      size = written_size p in_range s s' p _ size eq;
      holds = used a (written_entry p in_range s s' p _ size refl eq);
    }

    pub accepts-IsAligned :
        (s s' : Service F S A) (l : Listener) (woken waiting : List Listener)
        (r : Result (ℕ × IpEndpoint A × IpEndpoint A))
        → IsAligned p s (l ∷ woken) waiting
        → accept net s p ≡ ret (r, s')
        → IsAligned p s' woken waiting
    unfolding accept accept_entry accept_from is_connected
    accepts-IsAligned s s' l woken waiting r v eq =
        let (a, front) = first_in_front s l woken waiting v in
        let q = handles (woken ++ waiting) in
        let w = writes s a q (cids waiting) v.size in
        elim (Outcome-cases (net.is_established s.sockets l.handle)) [
          | inl fails ↦
              let all_fails : accept net s p ≡ panic = rw (front, w, fails) refl in absurd (cc)
          | inr (false, down) ↦
              let all_fails : accept net s p ≡ panic = rw (front, w, down) refl in absurd (cc)
          | inr (true, up) ↦ elim (Outcome-cases (get_addr_tuple net s.sockets l.handle)) [
            | inl fails ↦
                let all_fails : accept net s p ≡ panic = rw (front, w, up, fails) refl in
                absurd (cc)
            | inr ((local, remote), at) ↦ taken-IsAligned s s' woken waiting a v.size (
                tcp-eq (accept net s p) (ok (l.handle, local, remote)) r
                  (taken s a q (cids waiting)) s' (rw (front, w, up, at) refl) eq)
          ]
        ]
