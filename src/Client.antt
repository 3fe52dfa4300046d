-- ===== src/Client.antt =====
-- plugins/client/grpc/lb/load_balancer.go and config.go: which connection a call gets.
mod Tests
use skywalking_satellite.Base.{
  ℕ, zero, suc, ◌+◌, ◌%◌, ◌≤◌, ◌<◌, ◌≡◌, refl, sym, subst, ap, ap₂, ◌∙◌, ◌⊎◌, inl, inr, Bool, true,
  false, not, Bool-cases, Option, none, some, Option-cases, List, [], ◌∷◌, length, map, get_elem?,
  get_elem?_bounds, ◌==◌, if◌then◌else◌, arith, ==_iff,
}

-- connectionWrap: an address, by a number, and its connection.
pub record ConnectionWrap (Conn : Type 0) : Type 0 where
  pub addr : ℕ
  pub conn : Conn

-- `addr_to_conn` is the map that Build fills beside `cons`.
pub record SatelliteDynamicPicker (Conn : Type 0) : Type 0 where
  pub cons : List (ConnectionWrap Conn)
  pub addr_to_conn : ℕ → Option Conn
  pub conn_count : ℕ
  pub next : ℕ

-- The configuration of one call; `appoint_addr` is none for the empty string.
pub record LoadBalancerConfig : Type 0 where
  pub route_key : List ℕ
  pub appoint_addr : Option ℕ

none-ne-some : {A : Type 0} {a : A} → none ≡ some a → ⊥
none-ne-some h = cc

module _ {Conn : Type 0} where
  -- The loop over the ready connections, in the order in which the range gives them.
  unfoldable pub add_ready : List (ConnectionWrap Conn) → (ℕ → Option Conn) → ℕ → Option Conn
  add_ready [] m = m
  add_ready (c ∷ cs) m = add_ready cs (λ a. if c.addr == a then some c.conn else m a)

  -- Build; without a ready connection it answers a picker that only fails.
  unfoldable pub build : List (ConnectionWrap Conn) → Option (SatelliteDynamicPicker Conn)
  build [] = none
  build (c ∷ cs) = some (record {
    cons = c ∷ cs;
    addr_to_conn = add_ready (c ∷ cs) (λ _. none);
    conn_count = length (c ∷ cs);
    next = 0;
  })

  -- The connection at an index. An index out of range would be a panic.
  unfoldable pub at_index : ℕ → SatelliteDynamicPicker Conn → Option (ConnectionWrap Conn)
  at_index i p = get_elem? p.cons i

  abbrev conn_of : Option (ConnectionWrap Conn) → Option Conn
  conn_of none = none
  conn_of (some w) = some w.conn

  unfoldable pub round_robin_connection :
      SatelliteDynamicPicker Conn → Option Conn × SatelliteDynamicPicker Conn
  round_robin_connection p =
      (conn_of (at_index p.next p), record p { next = (p.next + 1) % p.conn_count })

  -- The connection of the appointed address, if there is one.
  abbrev appointed : Option ℕ → SatelliteDynamicPicker Conn → Option Conn
  appointed none p = none
  appointed (some a) p = p.addr_to_conn a

  -- The connection that the route key hashes to; its address is written to the configuration.
  unfoldable pub appoint :
      Option (ConnectionWrap Conn)
      → LoadBalancerConfig
      → SatelliteDynamicPicker Conn
      → Option Conn × SatelliteDynamicPicker Conn × Option LoadBalancerConfig
  appoint none c p = (none, p, some c)
  appoint (some w) c p = (some w.conn, p, some (record c { appoint_addr = some w.addr }))

  -- `hash` is hashCode, the checksum of hash/crc32 as an int, which is never negative on 64 bits.
  module _ (hash : List ℕ → ℕ) where
    unfoldable pub pick_known :
        Option Conn
        → LoadBalancerConfig
        → SatelliteDynamicPicker Conn
        → Option Conn × SatelliteDynamicPicker Conn × Option LoadBalancerConfig
    pick_known (some conn) c p = (some conn, p, some c)
    pick_known none c p = appoint (at_index (hash c.route_key % p.conn_count) p) c p

    unfoldable pub pick_many :
        Option LoadBalancerConfig
        → SatelliteDynamicPicker Conn
        → Option Conn × SatelliteDynamicPicker Conn × Option LoadBalancerConfig
    pick_many none p = ((round_robin_connection p).0, (round_robin_connection p).1, none)
    pick_many (some c) p = pick_known (appointed c.appoint_addr p) c p

    -- Pick: the configuration of the call comes back as the call has it then.
    unfoldable pub pick :
        Option LoadBalancerConfig
        → SatelliteDynamicPicker Conn
        → Option Conn × SatelliteDynamicPicker Conn × Option LoadBalancerConfig
    pick config p =
        if p.conn_count == 1 then (conn_of (at_index 0 p), p, config) else pick_many config p

  -- a connection among those that were ready
  abbrev pub Ready : SatelliteDynamicPicker Conn → Conn → Type 0
  Ready p conn =
      (i : ℕ) × (w : ConnectionWrap Conn) × (get_elem? p.cons i ≡ some w) × (w.conn ≡ conn)

  -- The first of two connections that may be missing.
  abbrev pub or_else : Option Conn → Option Conn → Option Conn
  or_else (some conn) other = some conn
  or_else none other = other

  -- The connection of an address: the last one with it.
  abbrev pub last_with : ℕ → List (ConnectionWrap Conn) → Option Conn
  last_with a [] = none
  last_with a (c ∷ cs) = or_else (last_with a cs) (if c.addr == a then some c.conn else none)

  pub record Sound (p : SatelliteDynamicPicker Conn) : Type 0 where
    pub count : p.conn_count ≡ length p.cons
    pub some_ready : 0 < p.conn_count
    pub next_inside : p.next < p.conn_count
    pub known : (a : ℕ) → p.addr_to_conn a ≡ last_with a p.cons

  abbrev content : Conn → Option Conn → Conn
  content d none = d
  content d (some conn) = conn

  or_else-if :
      (o : Option Conn) (b : Bool) (conn : Conn) (d : Option Conn)
      → or_else o (if b then some conn else d)
        ≡ or_else (or_else o (if b then some conn else none)) d
  or_else-if (some x) b conn d = refl
  or_else-if none true conn d = refl
  or_else-if none false conn d = refl

  add_ready_lem :
      (cs : List (ConnectionWrap Conn)) (m : ℕ → Option Conn) (a : ℕ)
      → add_ready cs m a ≡ or_else (last_with a cs) (m a)
  unfolding add_ready
  add_ready_lem [] m a = refl
  add_ready_lem (c ∷ cs) m a =
      add_ready_lem cs (λ x. if c.addr == x then some c.conn else m x) a
      ∙ or_else-if (last_with a cs) (c.addr == a) c.conn (m a)

  or_else-none : (o : Option Conn) → or_else o none ≡ o
  or_else-none none = refl
  or_else-none (some x) = refl

  last_with-Ready :
      (a : ℕ) (conn : Conn) (cs : List (ConnectionWrap Conn))
      → last_with a cs ≡ some conn
      → (i : ℕ) × (w : ConnectionWrap Conn) × (get_elem? cs i ≡ some w) × (w.conn ≡ conn)
  last_with-Ready a conn [] e = absurd (cc e)
  last_with-Ready a conn (c ∷ cs) e = elim (Option-cases (last_with a cs)) [
    | inr (x, later) ↦
        let (i, w, there, same) = last_with-Ready a x cs later in
        (suc i, w, there, same ∙ ap (content conn) (sym (ap (λ o. or_else o here) later) ∙ e))
    | inl never ↦ elim (Bool-cases (c.addr == a)) [
      | inl yes_it_is ↦ (
        0,
        c,
        refl,
        ap (content conn) (
            sym
              (ap (λ o. or_else o here) never ∙ ap (λ b. if b then some c.conn else none) yes_it_is)
            ∙ e),
      )
      | inr other ↦ absurd (
          none-ne-some (
            sym (ap (λ o. or_else o here) never ∙ ap (λ b. if b then some c.conn else none) other)
            ∙ e))
    ]
  ]
    where
      here : Option Conn
      here = if c.addr == a then some c.conn else none

  -- Build over ready connections answers a picker over exactly these: its count is theirs, the next
  -- index is in range, and every address leads to the last of them that has it, or to none when no
  -- connection has it.
  pub build-Sound :
      (c : ConnectionWrap Conn) (cs : List (ConnectionWrap Conn))
      → (p : SatelliteDynamicPicker Conn) × (build (c ∷ cs) ≡ some p) × (p.cons ≡ c ∷ cs) × Sound p
  unfolding build
  build-Sound c cs = (
    _,
    refl,
    refl,
    record {
      count = refl;
      some_ready = omega arith;
      next_inside = omega arith;
      known = λ a. add_ready_lem (c ∷ cs) (λ _. none) a ∙ or_else-none (last_with a (c ∷ cs));
    },
  )

  abbrev pub NotReady : Option ℕ → List (ConnectionWrap Conn) → Type 0
  NotReady none cs = Unit {0}
  NotReady (some a) cs = last_with a cs ≡ none

  -- Which connection a call gets, by what the picker holds and the configuration asks for.
  pub data Chosen (hash : List ℕ → ℕ) (config : Option LoadBalancerConfig)
      (p : SatelliteDynamicPicker Conn)
      (r : Option Conn × SatelliteDynamicPicker Conn × Option LoadBalancerConfig) : Type 0 where
    alone :
        (w : ConnectionWrap Conn)
        → p.cons ≡ w ∷ []
        → r.0 ≡ some w.conn
        → r.1 ≡ p
        → r.2 ≡ config
        → Chosen hash config p r
    in_turn :
        (w : ConnectionWrap Conn)
        → 1 < length p.cons
        → config ≡ none
        → get_elem? p.cons p.next ≡ some w
        → r.0 ≡ some w.conn
        → r.1.next ≡ (p.next + 1) % length p.cons
        → r.2 ≡ none
        → Chosen hash config p r
    by_address :
        (c : LoadBalancerConfig) (a : ℕ) (conn : Conn)
        → 1 < length p.cons
        → config ≡ some c
        → c.appoint_addr ≡ some a
        → last_with a p.cons ≡ some conn
        → r.0 ≡ some conn
        → r.1 ≡ p
        → r.2 ≡ some c
        → Chosen hash config p r
    by_route_key :
        (c : LoadBalancerConfig) (w : ConnectionWrap Conn)
        → 1 < length p.cons
        → config ≡ some c
        → NotReady c.appoint_addr p.cons
        → get_elem? p.cons (hash c.route_key % length p.cons) ≡ some w
        → r.0 ≡ some w.conn
        → r.1 ≡ p
        → r.2 ≡ some (record c { appoint_addr = some w.addr })
        → Chosen hash config p r

  -- What a pick comes to: a connection that was ready, chosen in one of these ways, and a picker as
  -- sound as before, over the same connections.
  pub record Picked (hash : List ℕ → ℕ) (config : Option LoadBalancerConfig)
      (p : SatelliteDynamicPicker Conn)
      (r : Option Conn × SatelliteDynamicPicker Conn × Option LoadBalancerConfig) : Type 0 where
    pub picked : (conn : Conn) × (r.0 ≡ some conn) × Ready p conn
    pub way : Chosen hash config p r
    pub same_ready : r.1.cons ≡ p.cons
    pub still_sound : Sound r.1

  only_one :
      (cs : List (ConnectionWrap Conn)) (w : ConnectionWrap Conn)
      → length cs ≡ 1
      → get_elem? cs 0 ≡ some w
      → cs ≡ w ∷ []
  only_one [] w e h = absurd (omega (arith, e))
  only_one (c ∷ []) w e h = cc h
  only_one (c ∷ d ∷ cs) w e h = absurd (omega (arith, e))

  module _ (hash : List ℕ → ℕ) where
    in_turn-Picked :
        (p : SatelliteDynamicPicker Conn)
        → 1 < length p.cons
        → Sound p
        → Picked hash none p (pick_many hash none p)
    unfolding pick_many round_robin_connection at_index
    in_turn-Picked p several s =
        let (w, there) = get_elem?_bounds p.cons p.next (omega (arith, s.count, s.next_inside)) in
        record {
          picked = (w.conn, ap conn_of there, (p.next, w, there, refl));
          way =
              in_turn w several refl there (ap conn_of there) (ap (λ n. (p.next + 1) % n) s.count)
                refl;
          same_ready = refl;
          still_sound = record {
            count = s.count;
            some_ready = s.some_ready;
            next_inside = grind (arith, s.some_ready);
            known = s.known;
          };
        }

    by_address-Picked :
        (c : LoadBalancerConfig) (a : ℕ) (conn : Conn) (p : SatelliteDynamicPicker Conn)
        → 1 < length p.cons
        → Sound p
        → c.appoint_addr ≡ some a
        → last_with a p.cons ≡ some conn
        → Picked hash (some c) p (some conn, p, some c)
    by_address-Picked c a conn p several s asked e = record {
      picked = (conn, refl, last_with-Ready a conn p.cons e);
      way = by_address c a conn several refl asked e refl refl refl;
      same_ready = refl;
      still_sound = s;
    }

    by_route_key-Picked :
        (c : LoadBalancerConfig) (p : SatelliteDynamicPicker Conn)
        → 1 < length p.cons
        → Sound p
        → NotReady c.appoint_addr p.cons
        → Picked hash (some c) p (pick_known hash none c p)
    unfolding pick_known appoint at_index
    by_route_key-Picked c p several s unready =
        let lower : hash c.route_key % length p.cons < length p.cons = grind (arith, several) in
        let (w, there) = get_elem?_bounds p.cons (hash c.route_key % length p.cons) lower in
        let found = ap (λ n. get_elem? p.cons (hash c.route_key % n)) s.count ∙ there in
        subst (Picked hash (some c) p) (sym (ap (λ o. appoint o c p) found)) (record {
          picked = (w.conn, refl, (hash c.route_key % length p.cons, w, there, refl));
          way = by_route_key c w several refl unready there refl refl refl;
          same_ready = refl;
          still_sound = s;
        })

    asked-Picked :
        (asked : Option ℕ) (c : LoadBalancerConfig) (p : SatelliteDynamicPicker Conn)
        → 1 < length p.cons
        → Sound p
        → c.appoint_addr ≡ asked
        → Picked hash (some c) p (pick_known hash (appointed asked p) c p)
    unfolding pick_known
    asked-Picked none c p several s e =
        by_route_key-Picked c p several s (subst (λ o. NotReady o p.cons) (sym e) tt)
    asked-Picked (some a) c p several s e = elim (Option-cases (last_with a p.cons)) [
      | inl unready ↦
          subst (Picked hash (some c) p)
            (sym (ap (λ o. pick_known hash o c p) (s.known a ∙ unready)))
            (by_route_key-Picked c p several s (subst (λ o. NotReady o p.cons) (sym e) unready))
      | inr (conn, ready) ↦
          subst (Picked hash (some c) p) (sym (ap (λ o. pick_known hash o c p) (s.known a ∙ ready)))
            (by_address-Picked c a conn p several s e ready)
    ]

    pick_many-Picked :
        (config : Option LoadBalancerConfig) (p : SatelliteDynamicPicker Conn)
        → 1 < length p.cons
        → Sound p
        → Picked hash config p (pick_many hash config p)
    unfolding pick_many
    pick_many-Picked none p several s = in_turn-Picked p several s
    pick_many-Picked (some c) p several s = asked-Picked c.appoint_addr c p several s refl

    alone-Picked :
        (config : Option LoadBalancerConfig) (p : SatelliteDynamicPicker Conn)
        → Sound p
        → p.conn_count ≡ 1
        → Picked hash config p (conn_of (at_index 0 p), p, config)
    unfolding at_index
    alone-Picked config p s one =
        let (w, there) = get_elem?_bounds p.cons 0 (omega (arith, s.count, s.some_ready)) in
        record {
          picked = (w.conn, ap conn_of there, (0, w, there, refl));
          way = alone w (only_one p.cons w (sym s.count ∙ one) there) (ap conn_of there) refl refl;
          same_ready = refl;
          still_sound = s;
        }

    -- On a sound picker, Pick gives a connection that was ready. With one connection that is the
    -- one. With several and without a configuration it is that of the next index, which then moves
    -- on by one around their number. With a configuration it is the connection of the appointed
    -- address when one is ready with it, and otherwise the one that the hash of the route key comes
    -- to, whose address is then appointed. No index is ever out of range, and the picker stays
    -- sound over the same connections.
    pub pick-Picked :
        (config : Option LoadBalancerConfig) (p : SatelliteDynamicPicker Conn)
        → Sound p
        → Picked hash config p (pick hash config p)
    unfolding pick
    pick-Picked config p s = elim (Bool-cases (p.conn_count == 1)) [
      | inl one ↦
          subst (Picked hash config p)
            (sym (
              ap (λ b. if b then (conn_of (at_index 0 p), p, config) else pick_many hash config p)
                one))
            (alone-Picked config p s ((==_iff p.conn_count 1).0 one))
      | inr other ↦
          subst (Picked hash config p)
            (sym (
              ap (λ b. if b then (conn_of (at_index 0 p), p, config) else pick_many hash config p)
                other))
            (pick_many-Picked config p (ground (arith, other, s.count, s.some_ready)) s)
    ]
