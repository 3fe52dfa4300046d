-- ===== src/Sender/Sync.antt =====
-- SyncInvoke of internal/satellite/module/sender/sender.go.
use skywalking_satellite.Base.{◌≡◌, refl, ap, ◌∙◌, true, false, List, [], ◌∷◌, ◌++◌, if◌then◌else◌}
use skywalking_satellite.Sender.Consume.{Forwarder}

-- The errors of SyncInvoke before a forwarder is asked.
pub data SyncError : Type 0 where
  only_single could_not_found : SyncError

pub data SyncResult (A : Type 0) : Type 0 where
  answered : A → SyncResult A
  refused : SyncError → SyncResult A

module _ {Event World : Type 0} where
  unfoldable pub support_sync_invoke : List (Forwarder Event World) → List (Forwarder Event World)
  support_sync_invoke [] = []
  support_sync_invoke (f ∷ fs) =
      let rest = support_sync_invoke fs in if f.supported_sync_invoke then f ∷ rest else rest

  -- `sync_forward` is SyncForward of a forwarder; the list is what supports it.
  unfoldable pub invoke_single :
      {Answer : Type 0}
      → (Forwarder Event World → Event → Answer)
      → List (Forwarder Event World)
      → Event
      → SyncResult Answer
  invoke_single sync_forward [] d = refused could_not_found
  invoke_single sync_forward (f ∷ []) d = answered (sync_forward f d)
  invoke_single sync_forward (f ∷ g ∷ fs) d = refused only_single

  unfoldable pub sync_invoke :
      {Answer : Type 0}
      → (Forwarder Event World → Event → Answer)
      → List (Forwarder Event World)
      → Event
      → SyncResult Answer
  sync_invoke sync_forward running d = invoke_single sync_forward (support_sync_invoke running) d

  -- none of these forwarders supports the call
  abbrev pub Unsupported : List (Forwarder Event World) → Type 0
  Unsupported [] = Unit {0}
  Unsupported (f ∷ fs) = (f.supported_sync_invoke ≡ false) × Unsupported fs

  support-Unsupported :
      (before behind : List (Forwarder Event World))
      → Unsupported before
      → support_sync_invoke (before ++ behind) ≡ support_sync_invoke behind
  unfolding support_sync_invoke
  support-Unsupported [] behind h = refl
  support-Unsupported (f ∷ before) behind h = rw h.0 (support-Unsupported before behind h.1)

  support_first :
      (before behind : List (Forwarder Event World)) (f : Forwarder Event World)
      → Unsupported before
      → f.supported_sync_invoke ≡ true
      → support_sync_invoke (before ++ (f ∷ behind)) ≡ f ∷ support_sync_invoke behind
  unfolding support_sync_invoke
  support_first before behind f h yes_it_does =
      support-Unsupported before (f ∷ behind) h
      ∙ ap (λ b. if b then f ∷ support_sync_invoke behind else support_sync_invoke behind)
          yes_it_does

  support_none : (fs : List (Forwarder Event World)) → Unsupported fs → support_sync_invoke fs ≡ []
  unfolding support_sync_invoke
  support_none [] h = refl
  support_none (f ∷ fs) h = rw h.0 (support_none fs h.1)

  -- With exactly one forwarder that supports the synchronous call, its answer is given, wherever it
  -- stands among the others; with a second one behind it, the call is refused whatever else there
  -- is; with none it is refused as well.
  pub sync_invoke_lem :
      {Answer : Type 0} (sync_forward : Forwarder Event World → Event → Answer)
      (before between behind : List (Forwarder Event World)) (f g : Forwarder Event World)
      (d : Event)
      → Unsupported before
      → Unsupported between
      → f.supported_sync_invoke ≡ true
      → g.supported_sync_invoke ≡ true
      → (sync_invoke sync_forward before d ≡ refused could_not_found)
        × (sync_invoke sync_forward (before ++ (f ∷ between)) d ≡ answered (sync_forward f d))
        × (sync_invoke sync_forward (before ++ (f ∷ (between ++ (g ∷ behind)))) d
            ≡ refused only_single)
  unfolding sync_invoke invoke_single
  sync_invoke_lem sync_forward before between behind f g d h k ff gg = (
    ap (λ l. invoke_single sync_forward l d) (support_none before h),
    ap (λ l. invoke_single sync_forward l d)
        (support_first before between f h ff ∙ ap (λ l. f ∷ l) (support_none between k)),
    ap (λ l. invoke_single sync_forward l d)
        (support_first before (between ++ (g ∷ behind)) f h ff
          ∙ ap (λ l. f ∷ l) (support_first between behind g k gg)),
  )
