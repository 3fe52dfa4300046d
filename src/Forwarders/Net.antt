-- ===== src/Forwarders/Net.antt =====
-- The streams of the gRPC client that the forwarders of plugins/forwarder/grpc call. The client is not
-- in the repository: which of its calls go well is left open.
use skywalking_satellite.Base.{
  ℕ, ◌≡◌, refl, ap, ◌∙◌, Bool, true, false, Option, none, some, List, [], ◌∷◌, ◌++◌, length, ◌==◌,
  ==_iff, if◌then◌else◌, ◌⊎◌, Bool-cases, inl, inr, suc, ◌+◌, arith,
}

-- What was called, and with which success. A stream is known by the number of the call that opened it.
-- The closing of a stream ends it also when it answers an error. A stream whose sending direction only
-- is closed is still open.
pub data Call (M : Type 0) : Type 0 where
  opened : ℕ → Call M
  refused : Call M
  sent : ℕ → M → Call M
  lost : ℕ → M → Call M
  half_closed : ℕ → Call M
  closed : ℕ → Call M

-- `fate n` says whether the n-th call goes well.
pub record Net (M : Type 0) : Type 0 where
  pub fate : ℕ → Bool
  pub log : List (Call M)

unfoldable pub remove : ℕ → List ℕ → List ℕ
remove s [] = []
remove s (t ∷ ts) = let rest = remove s ts in if t == s then ts else t ∷ rest

module _ {M : Type 0} where
  abbrev pub goes_well : Net M → Bool
  goes_well net = net.fate (length net.log)

  abbrev pub put : Call M → Net M → Net M
  put c net = record net { log = net.log ++ (c ∷ []) }

  unfoldable pub open_stream : Net M → Option ℕ × Net M
  open_stream net =
      if goes_well net
      then (some (length net.log), put (opened (length net.log)) net)
      else (none, put refused net)

  unfoldable pub send_msg : ℕ → M → Net M → Bool × Net M
  send_msg s m net =
      if goes_well net then (true, put (sent s m) net) else (false, put (lost s m) net)

  -- CloseAndRecv; the flag says that there is no error but the end of the stream.
  unfoldable pub close_and_recv : ℕ → Net M → Bool × Net M
  close_and_recv s net = (goes_well net, put (closed s) net)

  -- CloseSend; the flag says that there is no error but the end of the stream. It ends the stream when
  -- there is an error.
  unfoldable pub close_send : ℕ → Net M → Bool × Net M
  close_send s net =
      if goes_well net then (true, put (half_closed s) net) else (false, put (closed s) net)

  -- RecvMsg of the one answer of a stream, which ends it.
  unfoldable pub recv_msg : ℕ → Net M → Bool × Net M
  recv_msg s net = (goes_well net, put (closed s) net)

  -- The streams that are open after some calls.
  unfoldable pub open_after : List (Call M) → List ℕ → List ℕ
  open_after [] ts = ts
  open_after (opened s ∷ cs) ts = open_after cs (s ∷ ts)
  open_after (refused ∷ cs) ts = open_after cs ts
  open_after (sent s m ∷ cs) ts = open_after cs ts
  open_after (lost s m ∷ cs) ts = open_after cs ts
  open_after (half_closed s ∷ cs) ts = open_after cs ts
  open_after (closed s ∷ cs) ts = open_after cs (remove s ts)

  pub open_after-append :
      (cs ds : List (Call M)) (ts : List ℕ)
      → open_after (cs ++ ds) ts ≡ open_after ds (open_after cs ts)
  unfolding open_after
  open_after-append [] ds ts = refl
  open_after-append (opened s ∷ cs) ds ts = open_after-append cs ds (s ∷ ts)
  open_after-append (refused ∷ cs) ds ts = open_after-append cs ds ts
  open_after-append (sent s m ∷ cs) ds ts = open_after-append cs ds ts
  open_after-append (lost s m ∷ cs) ds ts = open_after-append cs ds ts
  open_after-append (half_closed s ∷ cs) ds ts = open_after-append cs ds ts
  open_after-append (closed s ∷ cs) ds ts = open_after-append cs ds (remove s ts)

  abbrev pub pending : Net M → List ℕ
  pending net = open_after net.log []

  -- The messages that were sent without an error.
  unfoldable pub delivered : List (Call M) → List M
  delivered [] = []
  delivered (opened s ∷ cs) = delivered cs
  delivered (refused ∷ cs) = delivered cs
  delivered (sent s m ∷ cs) = m ∷ delivered cs
  delivered (lost s m ∷ cs) = delivered cs
  delivered (half_closed s ∷ cs) = delivered cs
  delivered (closed s ∷ cs) = delivered cs

  pub delivered-append :
      (cs ds : List (Call M)) → delivered (cs ++ ds) ≡ delivered cs ++ delivered ds
  unfolding delivered
  delivered-append [] ds = refl
  delivered-append (opened s ∷ cs) ds = delivered-append cs ds
  delivered-append (refused ∷ cs) ds = delivered-append cs ds
  delivered-append (sent s m ∷ cs) ds = ap (λ l. m ∷ l) (delivered-append cs ds)
  delivered-append (lost s m ∷ cs) ds = delivered-append cs ds
  delivered-append (half_closed s ∷ cs) ds = delivered-append cs ds
  delivered-append (closed s ∷ cs) ds = delivered-append cs ds

  -- How many streams could not be opened.
  unfoldable pub refusals : List (Call M) → ℕ
  refusals [] = 0
  refusals (opened s ∷ cs) = refusals cs
  refusals (refused ∷ cs) = suc (refusals cs)
  refusals (sent s m ∷ cs) = refusals cs
  refusals (lost s m ∷ cs) = refusals cs
  refusals (half_closed s ∷ cs) = refusals cs
  refusals (closed s ∷ cs) = refusals cs

  refusals-append : (cs ds : List (Call M)) → refusals (cs ++ ds) ≡ refusals cs + refusals ds
  unfolding refusals
  refusals-append [] ds = omega arith
  refusals-append (opened s ∷ cs) ds = refusals-append cs ds
  refusals-append (refused ∷ cs) ds = omega (arith, refusals-append cs ds)
  refusals-append (sent s m ∷ cs) ds = refusals-append cs ds
  refusals-append (lost s m ∷ cs) ds = refusals-append cs ds
  refusals-append (half_closed s ∷ cs) ds = refusals-append cs ds
  refusals-append (closed s ∷ cs) ds = refusals-append cs ds

  pub send_msg-refusals :
      (s : ℕ) (m : M) (net : Net M) → refusals (send_msg s m net).1.log ≡ refusals net.log
  unfolding send_msg refusals
  send_msg-refusals s m net = elim (Bool-cases (goes_well net)) [
    | inl e ↦ rw e (omega (arith, refusals-append net.log (sent s m ∷ [])))
    | inr e ↦ rw e (omega (arith, refusals-append net.log (lost s m ∷ [])))
  ]

  pub close_and_recv-refusals :
      (s : ℕ) (net : Net M) → refusals (close_and_recv s net).1.log ≡ refusals net.log
  unfolding close_and_recv refusals
  close_and_recv-refusals s net = omega (arith, refusals-append net.log (closed s ∷ []))

  -- the three calls on the open streams
  pub open_stream-pending :
      (net : Net M)
      → ((s : ℕ) × ((open_stream net).0 ≡ some s)
          × (pending (open_stream net).1 ≡ s ∷ pending net)
          × (refusals (open_stream net).1.log ≡ refusals net.log))
        ⊎ (((open_stream net).0 ≡ none)
            × (pending (open_stream net).1 ≡ pending net)
            × (refusals (open_stream net).1.log ≡ refusals net.log + 1))
  unfolding open_stream open_after refusals
  open_stream-pending net = elim (Bool-cases (goes_well net)) [
    | inl e ↦ inl (
      length net.log,
      rw e,
      rw e (open_after-append net.log (opened (length net.log) ∷ []) []),
      rw e (omega (arith, refusals-append net.log (opened (length net.log) ∷ []))),
    )
    | inr e ↦ inr (
      rw e,
      rw e (open_after-append net.log (refused ∷ []) []),
      rw e (omega (arith, refusals-append net.log (refused ∷ []))),
    )
  ]

  pub send_msg-pending : (s : ℕ) (m : M) (net : Net M) → pending (send_msg s m net).1 ≡ pending net
  unfolding send_msg open_after
  send_msg-pending s m net = elim (Bool-cases (goes_well net)) [
    | inl e ↦ rw e (open_after-append net.log (sent s m ∷ []) [])
    | inr e ↦ rw e (open_after-append net.log (lost s m ∷ []) [])
  ]

  pub close_and_recv-pending :
      (s : ℕ) (net : Net M) (ts : List ℕ)
      → pending net ≡ s ∷ ts
      → pending (close_and_recv s net).1 ≡ ts
  unfolding close_and_recv open_after remove
  close_and_recv-pending s net ts e =
      open_after-append net.log (closed s ∷ []) [] ∙ ap (remove s) e ∙ rw ((==_iff s s).1 refl)

  pub recv_msg-pending :
      (s : ℕ) (net : Net M) (ts : List ℕ) → pending net ≡ s ∷ ts → pending (recv_msg s net).1 ≡ ts
  unfolding recv_msg open_after remove
  recv_msg-pending s net ts e =
      open_after-append net.log (closed s ∷ []) [] ∙ ap (remove s) e ∙ rw ((==_iff s s).1 refl)

  pub close_send-pending :
      (s : ℕ) (net : Net M) (ts : List ℕ)
      → pending net ≡ s ∷ ts
      → (((close_send s net).0 ≡ true) × (pending (close_send s net).1 ≡ s ∷ ts))
        ⊎ (((close_send s net).0 ≡ false) × (pending (close_send s net).1 ≡ ts))
  unfolding close_send open_after remove
  close_send-pending s net ts e = elim (Bool-cases (goes_well net)) [
    | inl fine ↦ inl (rw fine, rw fine (open_after-append net.log (half_closed s ∷ []) [] ∙ e))
    | inr bad ↦ inr (
      rw bad,
      rw bad (
          open_after-append net.log (closed s ∷ []) []
          ∙ ap (remove s) e
          ∙ rw ((==_iff s s).1 refl)),
    )
  ]
