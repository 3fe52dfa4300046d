-- ===== src/Resolvers.antt =====
-- plugins/client/grpc/resolvers: resolvers.go, static_clients.go and BuildTarget of
-- kubernetes_clients.go: the target of the gRPC client and the static list of addresses.
pub mod Kinds
pub mod Watch
mod Tests
use skywalking_satellite.Base.{
  ℕ, ◌≡◌, refl, sym, ap, ◌∙◌, Bool, true, false, ◌&&◌, not, Option, none, some, List, [], ◌∷◌, ◌++◌,
  ltb, ◌==◌, ==_iff, if◌then◌else◌, Text, text_eq, text_eq_iff, split, join, AllLack, split-join,
}

-- A JSON text is what kubernetes_config becomes, or the marshalling fails.
pub record ServerFinderConfig : Type 0 where
  pub finder_type : Text
  pub server_addr : Text
  pub kubernetes_config : Option Text

pub data Target : Type 0 where
  target : Text → Target
  convert_error : Target
  could_not_find : Text → Target

-- The constants, as bytes: static, kubernetes, `:///` and the two separators.
abbrev pub static_schema : Text
static_schema = 115 ∷ 116 ∷ 97 ∷ 116 ∷ 105 ∷ 99 ∷ []

abbrev pub kubernetes_schema : Text
kubernetes_schema = 107 ∷ 117 ∷ 98 ∷ 101 ∷ 114 ∷ 110 ∷ 101 ∷ 116 ∷ 101 ∷ 115 ∷ []

abbrev pub endpoint_mark : Text
endpoint_mark = 58 ∷ 47 ∷ 47 ∷ 47 ∷ []

abbrev pub slash : ℕ
slash = 47

abbrev pub comma : ℕ
comma = 44

-- Type and BuildTarget of the interface.
pub record GrpcResolver : Type 0 where
  pub schema : Text
  pub build_with : ServerFinderConfig → Target

unfoldable pub static_target : ServerFinderConfig → Target
static_target c = target (static_schema ++ (endpoint_mark ++ c.server_addr))

unfoldable pub kubernetes_target : ServerFinderConfig → Target
kubernetes_target c = elim c.kubernetes_config [
  | none ↦ convert_error
  | some marshal ↦ target (kubernetes_schema ++ (endpoint_mark ++ marshal))
]

abbrev pub resolvers : List GrpcResolver
resolvers =
    (record { schema = static_schema; build_with = static_target })
    ∷ (record { schema = kubernetes_schema; build_with = kubernetes_target })
    ∷ []

-- The loop of BuildTarget.
unfoldable pub build_among : List GrpcResolver → ServerFinderConfig → Target
build_among [] c = could_not_find c.finder_type
build_among (r ∷ rs) c =
    let rest = build_among rs c in if text_eq c.finder_type r.schema then r.build_with c else rest

unfoldable pub build_target : ServerFinderConfig → Target
build_target c = build_among resolvers c

-- strings.TrimLeft with a cutset of one byte.
unfoldable pub trim_left : ℕ → Text → Text
trim_left cut [] = []
trim_left cut (b ∷ s) = let rest = trim_left cut s in if b == cut then rest else b ∷ s

-- analyzeClients, which Build and ResolveNow call: `update_state` is that of the gRPC connection,
-- whose error is only logged.
unfoldable pub analyze_clients :
    {World : Type 0} → (List Text → World → Bool × World) → Text → World → World
analyze_clients update_state path w = (update_state (split comma (trim_left slash path)) w).1

-- A byte that stands for itself in the path of a URL: printable, and none of `"#%<>?[\]^{|}` or the
-- backquote.
abbrev pub plain_byte : ℕ → Bool
plain_byte b =
    ltb 32 b
    && ltb b 123
    && not (b == 34)
    && not (b == 35)
    && not (b == 37)
    && not (b == 60)
    && not (b == 62)
    && not (b == 63)
    && not (ltb 90 b && ltb b 95)
    && not (b == 96)

abbrev pub Plain : Text → Type 0
Plain [] = Unit {0}
Plain (b ∷ s) = (plain_byte b ≡ true) × Plain s

-- The text does not begin with a slash.
abbrev pub NoSlash : Text → Type 0
NoSlash [] = Unit {0}
NoSlash (b ∷ s) = b == slash ≡ false

-- What the parsing of a target by gRPC and net/url comes to: the path of `static:///endpoint`.
abbrev pub ParsesTarget : (Text → Text) → Type 0
ParsesTarget url_path =
    (endpoint : Text)
    → Plain endpoint
    → url_path (static_schema ++ (endpoint_mark ++ endpoint)) ≡ slash ∷ endpoint

trim_left-NoSlash : (s : Text) → NoSlash s → trim_left slash (slash ∷ s) ≡ s
unfolding trim_left
trim_left-NoSlash [] h = refl
trim_left-NoSlash (b ∷ s) h = rw h refl

-- Addresses without commas, joined by commas into the address of the static finder, come back: the
-- target is built, and what is read from its path is handed to the connection, each address once
-- and in order. The text is plain and does not begin with a slash.
pub static-addresses :
    {World : Type 0} (url_path : Text → Text) (update_state : List Text → World → Bool × World)
    (k : Option Text) (p : Text) (ps : List Text) (w : World)
    → ParsesTarget url_path
    → AllLack comma (p ∷ ps)
    → Plain (join comma (p ∷ ps))
    → NoSlash (join comma (p ∷ ps))
    → (t : Text) × (build_target (record {
      finder_type = static_schema;
      server_addr = join comma (p ∷ ps);
      kubernetes_config = k;
    })
        ≡ target t)
      × (analyze_clients update_state (url_path t) w ≡ (update_state (p ∷ ps) w).1)
unfolding build_target build_among static_target analyze_clients skywalking_satellite.Base.list_eq
static-addresses url_path update_state k p ps w parses lacks plain no_slash = (
  static_schema ++ (endpoint_mark ++ join comma (p ∷ ps)),
  refl,
  ap (λ l. (update_state l w).1)
      (ap (λ s. split comma (trim_left slash s)) (parses (join comma (p ∷ ps)) plain)
        ∙ ap (split comma) (trim_left-NoSlash (join comma (p ∷ ps)) no_slash)
        ∙ split-join comma p ps lacks),
)
