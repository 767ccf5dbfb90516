-- ===== src/Net/Requests/Polling.antt =====
-- `iface_poll` of crates/example/src/net/mod.rs, which polls at every tenth call that is not urgent.
use native.Mathlib.Decide.{dec_lt}
use rust_root_task_demo.Common.{
  ret, Outcome, length, get_or, leb_of_lt, leb_of_le, ltb_of_lt, arith, [], List, false, Bool, refl,
  suc, zero, ◌>>=◌, ◌∷◌, ◌≡◌, ◌≢◌, ◌<◌, ◌^◌, ◌+◌, ◌/◌, ◌%◌, ℕ,
}
use rust_root_task_demo.Net.{Service}
use rust_root_task_demo.Net.Requests.{threshold, polled, iface_poll}

module _ {ℓ} {F : Type ℓ} {S A : Type 0}
    (poll : Service F S A → Outcome (Bool × Service F S A)) where
  -- `n` calls that are not urgent, and what each answers.
  pub iface_polls : ℕ → Service F S A → Outcome (List Bool × Service F S A)
  iface_polls zero s = ret ([], s)
  iface_polls (suc n) s = do
    (ans, s') ← iface_poll poll s false
    (rest, s'') ← iface_polls n s'
    ret (ans ∷ rest, s'')

  -- A poll of the interface that returns and that the sockets count, by `seen`
  pub record PollsOnce (seen : S → ℕ) (s : Service F S A) : Type ℓ where
    pub ans : Bool
    pub after : Service F S A
    pub returns : poll s ≡ ret (ans, after)
    pub once : seen after.sockets ≡ seen s.sockets + 1
    pub same_cnt : after.net_poll_cnt ≡ s.net_poll_cnt

  -- What `n` calls that are not urgent leave.
  pub record Polls (seen : S → ℕ) (n : ℕ) (s : Service F S A) : Type ℓ where
    pub answers : List Bool
    pub after : Service F S A
    pub returns : iface_polls n s ≡ ret (answers, after)
    pub all_answered : length answers ≡ n
    pub polls : seen after.sockets ≡ seen s.sockets + (s.poll_cnt + n) / 10
    pub counted : after.net_poll_cnt ≡ s.net_poll_cnt + (s.poll_cnt + n) / 10
    pub left : after.poll_cnt ≡ (s.poll_cnt + n) % 10
    pub quiet_answers : (j : ℕ) → (s.poll_cnt + j + 1) % 10 ≢ 0 → get_or answers j false ≡ false

  quiet :
      (s : Service F S A)
      → s.poll_cnt + 1 < threshold
      → iface_poll poll s false ≡ ret (false, record s { poll_cnt = s.poll_cnt + 1 })
  unfolding iface_poll
  quiet s few =
      rw
        (
          ltb_of_lt (s.poll_cnt + 1) (2 ^ 64) (omega (arith, few)),
          leb_of_lt threshold (s.poll_cnt + 1) few,
        )
        refl

  tenth :
      (seen : S → ℕ) (s : Service F S A)
      → s.poll_cnt + 1 ≡ threshold
      → s.net_poll_cnt + 1 < 2 ^ 64
      → (p : PollsOnce seen (record s { poll_cnt = s.poll_cnt + 1 }))
      → iface_poll poll s false
        ≡ ret (p.ans, record (p.after) { net_poll_cnt = p.after.net_poll_cnt + 1; poll_cnt = 0 })
  unfolding iface_poll polled
  tenth seen s at room p =
      rw
        (
          ltb_of_lt (s.poll_cnt + 1) (2 ^ 64) (omega (arith, at)),
          leb_of_le threshold (s.poll_cnt + 1) (omega (arith, at)),
          p.returns,
          ltb_of_lt (p.after.net_poll_cnt + 1) (2 ^ 64) (omega (arith, room, p.same_cnt)),
        )
        refl

  -- If every poll of the interface returns, is counted once by the sockets as `seen` tells, and leaves
  -- the number of polls to `iface_poll`, then `n` calls that are not urgent, from a counter below 10
  -- and with room for `n` more polls in 64 bits, return: the interface has been polled as often as 10
  -- goes into the counter plus `n`, so many polls have been added to their number, the counter is the
  -- rest, and every call that does not bring it to a multiple of 10 answers `false`.
  pub iface_polls_lem :
      (seen : S → ℕ)
      → ((s : Service F S A) → PollsOnce seen s)
      → (n : ℕ) (s : Service F S A) → s.poll_cnt < threshold
      → s.net_poll_cnt + n < 2 ^ 64
      → Polls seen n s
  unfolding iface_polls
  iface_polls_lem seen once zero s low room = record {
    answers = [];
    after = s;
    returns = refl;
    all_answered = refl;
    polls = omega (arith, low);
    counted = omega (arith, low);
    left = omega (arith, low);
    quiet_answers = λ j h. refl;
  }
  iface_polls_lem seen once (suc n) s low room = elim (dec_lt (s.poll_cnt + 1) threshold) [
    | yes few ↦
        let s₁ = record s { poll_cnt = s.poll_cnt + 1 } in
        let r = iface_polls_lem seen once n s₁ few (omega (arith, room)) in
        record {
          answers = false ∷ r.answers;
          after = r.after;
          returns = rw (quiet s few, r.returns) refl;
          all_answered = omega (arith, r.all_answered);
          polls = omega (arith, r.polls);
          counted = omega (arith, r.counted);
          left = omega (arith, r.left);
          quiet_answers = elim [
            | zero ↦ λ h. refl
            | suc j ↦ λ h. r.quiet_answers j (λ e. h (omega (arith, e)))
          ];
        }
    | no full ↦
        let at : s.poll_cnt + 1 ≡ threshold = omega (arith, low, full) in
        let p = once (record s { poll_cnt = s.poll_cnt + 1 }) in
        let s₁ = record (p.after) { net_poll_cnt = p.after.net_poll_cnt + 1; poll_cnt = 0 } in
        let r = iface_polls_lem seen once n s₁ (omega arith) (omega (arith, room, p.same_cnt)) in
        record {
          answers = p.ans ∷ r.answers;
          after = r.after;
          returns = rw (tenth seen s at (omega (arith, room)) p, r.returns) refl;
          all_answered = omega (arith, r.all_answered);
          polls = omega (arith, r.polls, p.once, at);
          counted = omega (arith, r.counted, p.same_cnt, at);
          left = omega (arith, r.left, at);
          quiet_answers = elim [
            | zero ↦ λ h. absurd (h (omega (arith, at)))
            | suc j ↦ λ h. r.quiet_answers j (λ e. h (omega (arith, e, at)))
          ];
        }
  ]
