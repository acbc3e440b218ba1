-- ===== src/Api/Etags.antt =====
-- apps/api/internal/api: the form of ETags, and their recognition in a header.
use proxydock.Api.Configs.{etag_matches}
use proxydock.Auth.{hex_digit, hex_encode}
use proxydock.Auth.RoundTrip.{Bytes}
use proxydock.Compiler.Compile.{
  Compiled, Libraries, compile, compile_ordered, compiled, document, filter_by_protocol, ordered,
}
use proxydock.Compiler.Order.{compile-inr}
use proxydock.Compiler.Sections.{compile_http, compile_tcp, compile_udp, render_cert_pool}
use proxydock.Compiler.Upstreams.{trim_prefix}
use proxydock.Compiler.Validation.{http, tcp, udp}
use proxydock.Model.{Certificate, ProxyHost}
use proxydock.Model.Value.{Any}
use proxydock.Prelude.{
  All, All-append_one, All-map, List, Option, Option-cases, Text, [], any, arith, codes, false, inl,
  inr, nat_beq, refl, subst, sum_cases, sym, take, text_beq_iff, true, ℕ, ◌%◌, ◌++◌, ◌/◌, ◌<◌, ◌∷◌,
  ◌≡◌, ◌≢◌,
}
use proxydock.Prelude.PlainText.{All-take, split-All, trim_space-All}
use proxydock.Prelude.Strings.{has_prefix, is_space}

-- A character that neither trimming nor the splitting of a header takes away.
abbrev pub Plain : ℕ → Type 0
Plain c = (is_space c ≡ false) × (nat_beq c b',' ≡ false)

-- A text that stands unchanged in a header.
abbrev pub IsTag : Text → Type 0
IsTag e = All Plain e × (has_prefix e (codes "W/") ≡ false) × (e ≢ [])

hex_digit-Plain : (n : ℕ) → n < 16 → Plain (hex_digit n)
unfolding hex_digit is_space
hex_digit-Plain n h = ground arith

pub hex_encode-Plain : (bs : List ℕ) → Bytes bs → All Plain (hex_encode bs)
unfolding hex_encode
hex_encode-Plain [] h = tt
hex_encode-Plain (b ∷ bs) (h, hs) = (
  hex_digit-Plain (b / 16) (omega arith),
  (hex_digit-Plain (b % 16) (omega arith), hex_encode-Plain bs hs),
)

pub etag_matches_self : (e : Text) → IsTag e → etag_matches e e ≡ true
unfolding etag_matches any trim_prefix
etag_matches_self e (plain, weak, some_text) =
    rw (split-All b',' e (All-map Plain (λ c. nat_beq c b',' ≡ false) e (λ c p. p.1) plain)) (
      rw (trim_space-All e (All-map Plain (λ c. is_space c ≡ false) e (λ c p. p.0) plain))
        (rw weak (ground (arith, text_beq_iff e e))))

compiled-etag :
    (l : Libraries) (d : Any) (r : Compiled)
    → compiled l d ≡ inr r
    → r.etag ≡ b'"' ∷ (codes "sha256-" ++ (hex_encode (take 8 (l.sha256 r.config)) ++ (b'"' ∷ [])))
unfolding compiled
compiled-etag l d r e = elim (Option-cases (l.marshal d)) [
  | inl m ↦ absurd (ground arith)
  | inr (body, m) ↦
      let made : Compiled = record {
        config = body;
        etag = b'"' ∷ (codes "sha256-" ++ (hex_encode (take 8 (l.sha256 body)) ++ (b'"' ∷ [])));
      } in
      let same : made ≡ r = ground arith in
      subst
        (λ (z : Compiled).
          z.etag
          ≡ b'"' ∷ (codes "sha256-" ++ (hex_encode (take 8 (l.sha256 z.config)) ++ (b'"' ∷ []))))
        same refl
]

pub compile-compiled :
    (l : Libraries) (hs : List ProxyHost) (certs : List Certificate) (r : Compiled)
    → compile l hs certs ≡ inr r
    → (section : Any) × (t : Option Any) × (u : Option Any) × (c : Option Any) × (compiled l
          (document section t u c)
        ≡ inr r)
unfolding compile_ordered
compile-compiled l hs certs r e =
    let (valid, whole) = compile-inr l hs certs r e in
    let on = ordered hs in
    elim (sum_cases (compile_http l.sprint (filter_by_protocol http on))) [
      | inl (x, p) ↦ absurd (ground arith)
      | inr (section, p) ↦ (
        section,
        compile_tcp (filter_by_protocol tcp on),
        compile_udp (filter_by_protocol udp on),
        render_cert_pool certs,
        ground arith,
      )
    ]

hex_encode-IsTag :
    (bs : List ℕ) → Bytes bs → IsTag (b'"' ∷ (codes "sha256-" ++ (hex_encode bs ++ (b'"' ∷ []))))
unfolding is_space has_prefix
hex_encode-IsTag bs h =
    let hex = All-append_one Plain (hex_encode bs) b'"' (hex_encode-Plain bs h) (refl, refl) in
    (
      (
        (refl, refl),
        (
          (refl, refl),
          (
            (refl, refl),
            ((refl, refl), ((refl, refl), ((refl, refl), ((refl, refl), ((refl, refl), hex))))),
          ),
        ),
      ),
      refl,
      λ e. ground arith,
    )

pub compile-IsTag :
    (l : Libraries) (hs : List ProxyHost) (certs : List Certificate) (r : Compiled)
    → ((t : Text) → Bytes (l.sha256 t))
    → compile l hs certs ≡ inr r
    → IsTag r.etag
compile-IsTag l hs certs r bytes e =
    let (section, t, u, c, made) = compile-compiled l hs certs r e in
    subst IsTag (sym (compiled-etag l (document section t u c) r made)) (
      hex_encode-IsTag (take 8 (l.sha256 r.config))
        (All-take (λ b. b < 256) 8 (l.sha256 r.config) (bytes r.config)))
