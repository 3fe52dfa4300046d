-- ===== src/Telemetry/Init.antt =====
-- Init of the telemetry center: which exporters are started, and where it stops.
use skywalking_satellite.Base.{
  ◌≡◌, sym, ap, subst, ◌∙◌, ◌⊎◌, inl, inr, true, false, none, some, Option-cases, List, [], ◌∷◌,
  ◌++◌, append_assoc, append-nil, Text, split, join, AllLack, split-join, arith, Option,
}
use skywalking_satellite.Telemetry.Center.{
  Exporter, Center, find_server, start_servers, choose, init, found, StartAll,
}

module _ {W C : Type 0} (servers : List (Text × Exporter W C)) where
  start_servers-append :
      (before rest : List Text) (ss started : List (Exporter W C)) (w end : W)
      → found servers before ≡ some ss
      → StartAll ss w end
      → start_servers servers (before ++ rest) started w
        ≡ start_servers servers rest (started ++ ss) end
  unfolding start_servers
  start_servers-append [] rest [] started w end f h = rw (append-nil, h)
  start_servers-append [] rest (s ∷ ss) started w end f h = cc
  start_servers-append (t ∷ before) rest ss started w end f h =
      elim (Option-cases (find_server t servers)) [
        | inl e ↦ ground (arith, f)
        | inr (s, e) ↦ elim (Option-cases (found servers before)) [
          | inl g ↦ ground (arith, f)
          | inr (ss', g) ↦
              let same : ss ≡ s ∷ ss' = ground (arith, f) in
              let h' : StartAll (s ∷ ss') w end = subst (λ l. StartAll l w end) same h in
              rw (start_servers, e, h'.0)
                (start_servers-append before rest ss' (started ++ (s ∷ [])) (s.start w).1 end g h'.1
                  ∙ ap (λ l. start_servers servers rest l end)
                      (append_assoc started (s ∷ []) ss' ∙ ap (λ l. started ++ l) (sym same)))
        ]
      ]

split_joined :
    (before : List Text) (bad : Text) (after : List Text)
    → AllLack b',' (before ++ (bad ∷ after))
    → split b',' (join b',' (before ++ (bad ∷ after))) ≡ before ++ (bad ∷ after)
split_joined [] bad after plain = split-join b',' bad after plain
split_joined (t ∷ before) bad after plain = split-join b',' t (before ++ (bad ∷ after)) plain

module _ {W C : Type 0} (c : Center W C) (ss : List (Exporter W C)) (w end : W) where
  -- The export types, joined by commas, are all known and their exporters start without an error: they
  -- are started in this order, and the center works with them.
  pub init-StartAll :
      (t : Text) (types : List Text)
      → AllLack b',' (t ∷ types)
      → found c.servers (t ∷ types) ≡ some ss
      → StartAll ss w end
      → init (join b',' (t ∷ types)) c w
        ≡ (true, record c { current_server = choose ss c.current_server }, end)
  unfolding init start_servers
  init-StartAll t types plain known fine =
      let run : start_servers c.servers (split b',' (join b',' (t ∷ types))) [] w ≡ (some ss, end) =
        ap (λ l. start_servers c.servers l [] w)
          (split-join b',' t types plain ∙ sym (append-nil (t ∷ types)))
        ∙ start_servers-append c.servers (t ∷ types) [] ss [] w end known fine in
      rw (init, run)
        (ap
          (λ (p : Option (List (Exporter W C)) × W).
            (true, record c { current_server = choose ss c.current_server }, p.1))
          run)

  -- What makes Init stop at an export type: it is unknown, or its exporter does not start.
  abbrev pub Stops : Text → W → Type 0
  Stops t last =
      ((find_server t c.servers ≡ none) × (last ≡ end))
      ⊎ ((s : Exporter W C) × (find_server t c.servers ≡ some s) × (s.start end ≡ (false, last)))

  -- At the first export type that is unknown or does not start, Init ends with an error: the
  -- exporters before it have been started, those behind it are not, and the center works with what
  -- it had. The export types are without commas.
  pub init-Stops :
      (before : List Text) (bad : Text) (after : List Text) (last : W)
      → AllLack b',' (before ++ (bad ∷ after))
      → found c.servers before ≡ some ss
      → StartAll ss w end
      → Stops bad last
      → init (join b',' (before ++ (bad ∷ after))) c w ≡ (false, c, last)
  unfolding init start_servers
  init-Stops before bad after last plain known fine stops =
      let run : start_servers c.servers (split b',' (join b',' (before ++ (bad ∷ after)))) [] w
          ≡ (none, last) =
        ap (λ l. start_servers c.servers l [] w) (split_joined before bad after plain)
        ∙ start_servers-append c.servers before (bad ∷ after) ss [] w end known fine
        ∙ stopped stops in
      rw (init, run) (ap (λ (p : Option (List (Exporter W C)) × W). (false, c, p.1)) run)
    where
      stopped : Stops bad last → start_servers c.servers (bad ∷ after) ss end ≡ (none, last)
      stopped (inl (unknown, e)) = rw (start_servers, unknown, e)
      stopped (inr (s, known', e)) = rw (start_servers, known', e)
