-- ===== src/Net/ListenTable/Aligned/Packets.antt =====
-- The entry of a port of crates/example/src/net/listen_table.rs after `incoming_tcp_packet`.
use rust_root_task_demo.Common.{
  append_assoc, drop, set, get_or, arith, inr, inl, subst, ap, sym, refl, ◌∙◌, ret, length, [],
  List, some, none, Option, ◌++◌, ◌∷◌, ◌≡◌, ◌<◌, ℕ,
}
use rust_root_task_demo.Net.{IpEndpoint, IpListenEndpoint, Smoltcp, ListenTableEntry, Service}
use rust_root_task_demo.Net.ListenTable.{port_num, incoming_tcp_packet}
use rust_root_task_demo.Net.ListenTable.Packet.{
  entry, entry_of, blocked, packet-tcp, incoming_tcp_packet-none,
}
use rust_root_task_demo.Net.ListenTable.Aligned.{
  Listener, handles, cids, Aligned, unused, used, IsAligned, written_size, written_entry,
}

module _ {ℓ} {F : Type ℓ} {S K A : Type 0} (net : Smoltcp S K A) (p : ℕ) where
  -- What a packet for the port leaves.
  data Leaves (s' : Service F S A) (woken waiting : List Listener) : Type ℓ where
    passed : IsAligned p s' woken waiting → Leaves s' woken waiting
    woken_one :
        (l : Listener) (rest : List Listener)
        → waiting ≡ l ∷ rest
        → IsAligned p s' (woken ++ (l ∷ [])) rest
        → Leaves s' woken waiting

  module _ (in_range : p < port_num) where
    packet_aligned :
        (s s' : Service F S A) (woken waiting : List Listener) (dst : IpEndpoint A)
        → IsAligned p s woken waiting
        → dst.port ≡ p
        → incoming_tcp_packet net s dst ≡ ret s'
        → Leaves s' woken waiting
    packet_aligned s s' woken waiting dst v at eq = at_entry v.holds
      where
        same : s'.tcp ≡ s.tcp → IsAligned p s' woken waiting
        same e = record {
          size = ap length e ∙ v.size;
          holds =
              subst
                (λ (t : List (Option (ListenTableEntry A))).
                  Aligned (get_or t p none) woken waiting)
                (sym e) v.holds;
        }

        same_table : incoming_tcp_packet net s dst ≡ ret s → s'.tcp ≡ s.tcp
        same_table h = let stays : s' ≡ s = cc in ap (λ (z : Service F S A). z.tcp) stays

        woke :
            (a : IpListenEndpoint A) (xs : List Listener)
            → waiting ≡ xs
            → s'.tcp
              ≡ set s.tcp dst.port
                  (some (entry a (handles (woken ++ waiting)) (drop 1 (cids waiting))))
            → Leaves s' woken waiting
        woke a [] h e = passed (record {
          size = written_size p in_range s s' dst.port _ v.size e;
          holds = used a (
              written_entry p in_range s s' dst.port _ v.size at e
              ∙ ap (λ (ls : List ℕ). some (entry a (handles (woken ++ waiting)) ls))
                  (ap (λ (ls : List Listener). drop 1 (cids ls)) h ∙ ap cids (sym h)));
        })
        woke a (l ∷ rest) h e = woken_one l rest h (record {
          size = written_size p in_range s s' dst.port _ v.size e;
          holds = used a (
              written_entry p in_range s s' dst.port _ v.size at e
              ∙ rw (h, append_assoc woken (l ∷ []) rest) refl);
        })

        at_entry : Aligned (entry_of s p) woken waiting → Leaves s' woken waiting
        at_entry (unused free _ _) = passed (
            same (
              same_table (
                incoming_tcp_packet-none net s dst v.size (omega (arith, in_range, at))
                  (ap (entry_of s) at ∙ free))))
        at_entry (used a e) =
            elim (packet-tcp net s s' dst a (handles (woken ++ waiting)) (cids waiting) v.size
              (omega (arith, in_range, at)) (ap (entry_of s) at ∙ e) eq) [
                | inl h ↦ passed (same h)
                | inr h ↦ woke a waiting refl h
              ]

    -- The coroutines that wait are those of the listeners that wait.
    blocked_by :
        (s : Service F S A) (woken waiting : List Listener)
        → IsAligned p s woken waiting
        → blocked (entry_of s p) ≡ cids waiting
    unfolding blocked
    blocked_by s woken waiting v = at_entry (entry_of s p) v.holds
      where
        at_entry :
            (o : Option (ListenTableEntry A)) → Aligned o woken waiting → blocked o ≡ cids waiting
        at_entry o (unused free _ none_waiting) = rw (free, none_waiting) refl
        at_entry o (used a there) = rw there refl

    pub wakes-IsAligned :
        (s s' : Service F S A) (woken waiting : List Listener) (l : Listener) (dst : IpEndpoint A)
        → IsAligned p s woken (l ∷ waiting)
        → dst.port ≡ p
        → incoming_tcp_packet net s dst ≡ ret s'
        → length (blocked (entry_of s' p)) < length (blocked (entry_of s p))
        → IsAligned p s' (woken ++ (l ∷ [])) waiting
    wakes-IsAligned s s' woken waiting l dst v at eq fewer =
        left (packet_aligned s s' woken (l ∷ waiting) dst v at eq)
      where
        left : Leaves s' woken (l ∷ waiting) → IsAligned p s' (woken ++ (l ∷ [])) waiting
        left (passed h) = absurd (
            omega (
              arith,
              fewer,
              ap length (blocked_by s woken (l ∷ waiting) v),
              ap length (blocked_by s' woken (l ∷ waiting) h),
            ))
        left (woken_one l' rest h k) =
            let same : l ≡ l' = cc in
            let others_same : waiting ≡ rest = cc in
            subst (λ (x : Listener). IsAligned p s' (woken ++ (x ∷ [])) waiting) (sym same)
              (subst (IsAligned p s' (woken ++ (l' ∷ []))) (sym others_same) k)

    pub passes-IsAligned :
        (s s' : Service F S A) (woken waiting : List Listener) (dst : IpEndpoint A)
        → IsAligned p s woken waiting
        → dst.port ≡ p
        → incoming_tcp_packet net s dst ≡ ret s'
        → length (blocked (entry_of s' p)) ≡ length (blocked (entry_of s p))
        → IsAligned p s' woken waiting
    passes-IsAligned s s' woken waiting dst v at eq same =
        left (packet_aligned s s' woken waiting dst v at eq)
      where
        left : Leaves s' woken waiting → IsAligned p s' woken waiting
        left (passed h) = h
        left (woken_one l rest h k) = absurd (
            omega (
              arith,
              same,
              ap length (blocked_by s woken waiting v),
              ap length (blocked_by s' (woken ++ (l ∷ [])) rest k),
              ap (λ (ls : List Listener). length (cids ls)) h,
            ))
