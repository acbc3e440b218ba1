-- ===== src/Api/Built.antt =====
-- apps/api/internal/api/agent_handlers.go, buildAgentConfigResponse: the two ways to a body.
use proxydock.Api.Answers.{Server}
use proxydock.Api.Configs.{
  ConfigBody, agent_hosts, build_agent_config_response, compile_for_agent, published_body,
  recompiled_body, snapshot_certs,
}
use proxydock.Compiler.Compile.{Compiled, compile}
use proxydock.Model.{Agent, Certificate, Doc, ProxyHost, Revision, empty, invalid, json}
use proxydock.Prelude.{
  List, Option-cases, [], ap, arith, inl, inr, refl, subst, sum_cases, ◌∙◌, ◌∷◌, ◌≡◌, ◌⊎◌,
}

doc_cases : {A : Type 0} (d : Doc A) → (d ≡ empty) ⊎ (d ≡ invalid) ⊎ ((a : A) × (d ≡ json a))
doc_cases empty = inl refl
doc_cases invalid = inr (inl refl)
doc_cases (json a) = inr (inr (a, refl))

pub list_cases :
    {A : Type 0} (xs : List A) → (xs ≡ []) ⊎ ((x : A) × (rest : List A) × (xs ≡ x ∷ rest))
list_cases [] = inl refl
list_cases (x ∷ xs) = inr (x, xs, refl)

-- A body that was compiled for the agent from hosts of the snapshot.
abbrev pub Recompiled : Server → Agent → Revision → ConfigBody → Type 0
Recompiled sv a rev b =
    (hosts : List ProxyHost) × (certs : List Certificate) × (res : Compiled)
    × (rev.source_proxy_hosts ≡ json hosts)
    × (compile sv.libraries (agent_hosts a.labels hosts) certs ≡ inr res)
    × (b ≡ recompiled_body sv.signer res (published_body a rev))

module _ (sv : Server) (a : Agent) (rev : Revision) (b : ConfigBody) where
  compile_for_agent-Recompiled :
      (hosts : List ProxyHost)
      → rev.source_proxy_hosts ≡ json hosts
      → compile_for_agent sv a rev hosts ≡ inr b
      → Recompiled sv a rev b
  unfolding compile_for_agent
  compile_for_agent-Recompiled hosts d e = elim (Option-cases (snapshot_certs rev.source_certs)) [
    | inl c ↦ absurd (ground arith)
    | inr (certs, c) ↦ elim (sum_cases (compile sv.libraries (agent_hosts a.labels hosts) certs)) [
      | inl (x, f) ↦ absurd (ground arith)
      | inr (res, f) ↦ (hosts, certs, res, d, f, ground arith)
    ]
  ]

  pub build_agent_config_response_cases :
      build_agent_config_response sv a rev ≡ inr b
      → (b ≡ published_body a rev) ⊎ Recompiled sv a rev b
  unfolding build_agent_config_response
  build_agent_config_response_cases e = elim (doc_cases rev.source_proxy_hosts) [
    | inl d ↦ inl (ground arith)
    | inr rest ↦ elim rest [
      | inl d ↦ absurd (ground arith)
      | inr (hosts, d) ↦ elim (list_cases hosts) [
        | inl n ↦
            inl (let f : rev.source_proxy_hosts ≡ json [] = d ∙ ap (λ z. json z) n in ground arith)
        | inr (h, hs, c) ↦ inr (
            let f : rev.source_proxy_hosts ≡ json (h ∷ hs) = d ∙ ap (λ z. json z) c in
            compile_for_agent-Recompiled (h ∷ hs) f (ground arith))
      ]
    ]
  ]

  -- From a snapshot that has a host, the body is compiled.
  pub build-snapshot :
      (h : ProxyHost) (hs : List ProxyHost)
      → rev.source_proxy_hosts ≡ json (h ∷ hs)
      → build_agent_config_response sv a rev ≡ inr b
      → (certs : List Certificate) × (res : Compiled) × (compile sv.libraries
            (agent_hosts a.labels (h ∷ hs))
            certs
          ≡ inr res)
        × (b ≡ recompiled_body sv.signer res (published_body a rev))
  unfolding build_agent_config_response
  build-snapshot h hs d e =
      let (hosts, certs, res, found, c, same) =
        compile_for_agent-Recompiled (h ∷ hs) d (ground arith) in
      let one : hosts ≡ h ∷ hs = ground arith in
      (
        certs,
        res,
        subst (λ z. compile sv.libraries (agent_hosts a.labels z) certs ≡ inr res) one c,
        same,
      )
