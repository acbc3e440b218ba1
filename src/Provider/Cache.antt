-- ===== src/Provider/Cache.antt =====
-- providers/traefik-fleet/cache.go: the last good answer on disk, which a save replaces by writing
-- a temporary file and renaming it.
use proxydock.Prelude.{
  All, Bool, Bool-cases, List, Octets, Option, Option-cases, Text, [], arith, false, if◌then◌else◌,
  inl, inr, nat_eq, none, not, refl, some, subst, sym, text_eq, true, ℕ, ◌==◌, ◌∙◌, ◌∷◌, ◌≡◌, ◌⊎◌,
}
use proxydock.Provider.Client.{CacheFile, ConfigResponse, Externals}

-- The cache file, if there is one, and the temporary files beside it.
pub record Disk : Type 0 where
  pub cache : Option Octets
  pub temps : List Octets

pub data CacheError : Type 0 where
  unreadable decode_failed encode_failed no_dir no_temp write_failed close_failed : CacheError
  rename_failed : CacheError

-- How the operating system answers a save: what a write has put into the temporary file when it
-- ends, and which calls succeed.
pub record SaveCalls : Type 0 where
  pub now : ℕ
  pub written : Octets → Octets
  pub makes_dir : Bool
  pub creates : Bool
  pub writes : Bool
  pub closes : Bool
  pub renames : Bool
  pub removes : Bool

unfoldable pub load_cache : Externals → Bool → Text → Disk → CacheError ⊎ Option CacheFile
load_cache x readable path d = if path == [] then inr none else elim d.cache [
  | none ↦ if readable then inr none else inl unreadable
  | some b ↦ if not readable then inl unreadable else elim (x.decode_cache b) [
    | none ↦ inl decode_failed
    | some cf ↦ if cf.response == [] then inr none else inr (some cf)
  ]
]

-- The states the disk goes through, the last one being what it is left in, and the error.
unfoldable pub cleanup : SaveCalls → Disk → List Disk
cleanup o d = if o.removes then d ∷ [] else []

unfoldable pub replace_file : SaveCalls → Disk → Octets → List Disk × Option CacheError
unfolding cleanup
replace_file o d out =
    let created : Disk = record { cache = d.cache; temps = [] ∷ d.temps } in
    let partial : Disk = record { cache = d.cache; temps = o.written out ∷ d.temps } in
    let full : Disk = record { cache = d.cache; temps = out ∷ d.temps } in
    let renamed : Disk = record { cache = some out; temps = d.temps } in
    if not o.creates
    then ([], some no_temp)
    else if not o.writes
    then (created ∷ partial ∷ cleanup o d, some write_failed)
    else if not o.closes
    then (created ∷ full ∷ cleanup o d, some close_failed)
    else if not o.renames
    then (created ∷ full ∷ cleanup o d, some rename_failed)
    else (created ∷ full ∷ renamed ∷ [], none)

-- The file a save writes.
unfoldable pub cache_text : Externals → SaveCalls → ConfigResponse → Text → Option Octets
cache_text x o cr etag = elim (x.encode_response cr) [
  | none ↦ none
  | some raw ↦
      x.encode_cache
        record { saved_at = o.now; revision = cr.revision; etag = etag; response = raw }
]

unfoldable pub save_cache :
    Externals → SaveCalls → Text → ConfigResponse → Text → Disk → List Disk × Option CacheError
unfolding replace_file cache_text
save_cache x o path cr etag d =
    if path == []
    then ([], none)
    else if not o.makes_dir
    then ([], some no_dir)
    else elim (cache_text x o cr etag) [
      | none ↦ ([], some encode_failed)
      | some out ↦ replace_file o d out
    ]

-- What the disk is left in.
unfoldable pub last_disk : Disk → List Disk → Disk
last_disk d [] = d
last_disk d (e ∷ es) = last_disk e es

-- A state on the way from `d` to the new file `out`.
Between : Disk → Option Octets → Disk → Type 0
Between d out e = (e.cache ≡ d.cache) ⊎ (e.cache ≡ out)

abbrev calls : ℕ → (Octets → Octets) → Bool → Bool → Bool → Bool → Bool → Bool → SaveCalls
calls now written dir creates writes closes renames removes = record {
  now = now;
  written = written;
  makes_dir = dir;
  creates = creates;
  writes = writes;
  closes = closes;
  renames = renames;
  removes = removes;
}

Done : Disk → Option Octets → List Disk × Option CacheError → Type 0
unfolding last_disk
Done d out (trace, e) = All (Between d out) trace × (e ≡ none → (last_disk d trace).cache ≡ out)

cleanup-Between :
    (b : Bool) (d : Disk) (out : Option Octets) → All (Between d out) (if b then d ∷ [] else [])
unfolding Between
cleanup-Between true d out = (inl refl, tt)
cleanup-Between false d out = tt

calls-Done :
    (n : ℕ) (w : Octets → Octets) (m c r l k b : Bool) (d : Disk) (out : Octets)
    → Done d (some out) (replace_file (calls n w m c r l k b) d out)
unfolding replace_file Done Between
calls-Done n w m false r l k b d out = (tt, λ e. absurd (ground arith))
calls-Done n w m true false l k b d out =
    ((inl refl, (inl refl, cleanup-Between b d (some out))), λ e. absurd (ground arith))
calls-Done n w m true true false k b d out =
    ((inl refl, (inl refl, cleanup-Between b d (some out))), λ e. absurd (ground arith))
calls-Done n w m true true true false b d out =
    ((inl refl, (inl refl, cleanup-Between b d (some out))), λ e. absurd (ground arith))
calls-Done n w m true true true true b d out = ((inl refl, (inl refl, (inr refl, tt))), λ e. refl)

save_cache-Done :
    (x : Externals) (o : SaveCalls) (path : Text) (cr : ConfigResponse) (etag : Text) (d : Disk)
    → (path == []) ≡ false
    → Done d (cache_text x o cr etag) (save_cache x o path cr etag d)
unfolding save_cache Done
save_cache-Done x o path cr etag d p = elim (Bool-cases o.makes_dir) [
  | inl m ↦ elim (Option-cases (cache_text x o cr etag)) [
    | inl t ↦
        let e : save_cache x o path cr etag d ≡ ([], some encode_failed) = ground arith in
        subst (Done d _) (sym e) (tt, λ z. absurd (ground arith))
    | inr (out, t) ↦
        let e : save_cache x o path cr etag d ≡ replace_file o d out = ground arith in
        subst (Done d _) (sym e) (
          subst (λ t. Done d t (replace_file o d out)) (sym t)
            (calls-Done o.now o.written o.makes_dir o.creates o.writes o.closes o.renames o.removes
              d out))
  ]
  | inr m ↦
      let e : save_cache x o path cr etag d ≡ ([], some no_dir) = ground arith in
      subst (Done d _) (sym e) (tt, λ z. absurd (ground arith))
]

-- In every state that a save goes through, so also after a crash in the middle of it, the cache
-- file is the one from before or the complete new one.
pub save_cache-atomic :
    (x : Externals) (o : SaveCalls) (path : Text) (cr : ConfigResponse) (etag : Text) (d : Disk)
    → All
        (λ e. (e.cache ≡ d.cache) ⊎ (e.cache ≡ cache_text x o cr etag))
        (save_cache x o path cr etag d).0
unfolding save_cache Done Between
save_cache-atomic x o path cr etag d = elim (Bool-cases (path == [])) [
  | inl p ↦
      let e : save_cache x o path cr etag d ≡ ([], none) = ground arith in
      subst (λ z. All (Between d (cache_text x o cr etag)) z.0) (sym e) tt
  | inr p ↦ (save_cache-Done x o path cr etag d p).0
]

-- If a cache file is configured and the save reports no error, the cache file is the new one.
pub save_cache_complete :
    (x : Externals) (o : SaveCalls) (path : Text) (cr : ConfigResponse) (etag : Text) (d : Disk)
    → (path == []) ≡ false
    → (save_cache x o path cr etag d).1 ≡ none
    → (out : Octets) × (cache_text x o cr etag ≡ some out)
      × ((last_disk d (save_cache x o path cr etag d).0).cache ≡ some out)
unfolding save_cache Done
save_cache_complete x o path cr etag d p e = elim (Option-cases (cache_text x o cr etag)) [
  | inl t ↦ absurd (ground arith)
  | inr (out, t) ↦ (out, t, (save_cache-Done x o path cr etag d p).1 e ∙ t)
]
