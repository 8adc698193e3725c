-- ===== src/Config/Load/Laws.antt =====
-- Which configurations are accepted, and what an accepted one holds.
use capo_shell_mcp.Prelude.{
  String, ◌≡◌, inl, inr, refl, subst, ◌↔◌, Option, none, some, [], Map, lookup, insert,
  lookup-insert, eq_iff, Result, ok, ◌⊕◌, bind-ok, arith, Option-cases,
}
use capo_shell_mcp.Action.{noted, noted-ok}
use capo_shell_mcp.Config.Value.{Value, Fields, end, field, get, as_text, as_object}
use capo_shell_mcp.Config.Load.{
  KubeconfigSource, AppConfig, source_of, parse_source, parse_sources, parse_kubeconfigs,
  app_config, config_of, load_config, config_path, load,
}

-- An entry of `kubeconfigs` that is an object with a text under `path`.
abbrev pub HasPath : Value → Type 0
HasPath v =
    (entry : Fields) × (path : String) × (as_object v ≡ some entry)
    × (as_text (get entry "path") ≡ some path)

abbrev pub AllHavePath : Fields → Type 0
AllHavePath end = Unit
AllHavePath (field k v fs) = HasPath v × AllHavePath fs

-- A non-empty object of such entries.
abbrev pub IsSources : Option Fields → Type 0
IsSources none = ⊥
IsSources (some end) = ⊥
IsSources (some (field k v fs)) = AllHavePath (field k v fs)

module _ (getenv : String → String) where
  parse_source-HasPath :
      (name : String) (v : Value) {src : KubeconfigSource}
      → parse_source getenv name v ≡ ok src
      → HasPath v × (src.name ≡ name)
  unfolding parse_source
  parse_source-HasPath name v {src} h = elim (Option-cases (as_object v)) [
    | inl n ↦ cc (rw (n, parse_source) at h)
    | inr (entry, i) ↦ elim (Option-cases (as_text (get entry "path"))) [
      | inl n ↦ cc (rw (i, parse_source, n) at h)
      | inr (path, j) ↦ (
        (entry, path, i, j),
        (let same : ok (source_of getenv name entry path) ≡ ok src = rw (i, parse_source, j) at h in
            cc),
      )
    ]
  ]

  HasPath-parse_source :
      (name : String) (v : Value)
      → HasPath v
      → (src : KubeconfigSource) × (parse_source getenv name v ≡ ok src)
  unfolding parse_source
  HasPath-parse_source name v (entry, path, i, j) =
      (source_of getenv name entry path, rw (i, parse_source, j))

  abbrev IsNamed : Map KubeconfigSource → Type 0
  IsNamed m = (k : String) (src : KubeconfigSource) → lookup k m ≡ some src → src.name ≡ k

  insert-IsNamed :
      (m : Map KubeconfigSource) (name : String) (src : KubeconfigSource)
      → IsNamed m
      → src.name ≡ name
      → IsNamed (insert name src m)
  insert-IsNamed m name src n same k s h =
      ground (arith, lookup-insert name k src m, eq_iff name k, n k s)

  parse_sources-ok :
      (m : Map KubeconfigSource) (fs : Fields) {out : Map KubeconfigSource}
      → IsNamed m
      → parse_sources getenv m fs ≡ ok out
      → AllHavePath fs × IsNamed out
  unfolding parse_sources
  parse_sources-ok m end {out} n h = (tt, (let same : m ≡ out = cc in subst IsNamed same n))
  parse_sources-ok m (field name v fs) n h =
      let (src, first, rest) = bind-ok _ (parse_source getenv name v) h in
      let (p, same) = parse_source-HasPath name v first in
      let (ps, named) =
        parse_sources-ok (insert name src m) fs (insert-IsNamed m name src n same) rest in
      ((p, ps), named)

  AllHavePath-parse_sources :
      (m : Map KubeconfigSource) (fs : Fields)
      → AllHavePath fs
      → (out : Map KubeconfigSource) × (parse_sources getenv m fs ≡ ok out)
  unfolding parse_sources
  AllHavePath-parse_sources m end h = (m, refl)
  AllHavePath-parse_sources m (field name v fs) (p, h) =
      let (src, i) = HasPath-parse_source name v p in
      let (out, j) = AllHavePath-parse_sources (insert name src m) fs h in (out, rw i j)

  IsNamed-empty : IsNamed []
  unfolding lookup
  IsNamed-empty k src h = cc

  parse_kubeconfigs-ok :
      (raw : Value) {out : Map KubeconfigSource}
      → parse_kubeconfigs getenv raw ≡ ok out
      → IsSources (as_object raw) × IsNamed out
  unfolding parse_kubeconfigs
  parse_kubeconfigs-ok raw h = elim (Option-cases (as_object raw)) [
    | inl n ↦ absurd (cc (rw (n, parse_kubeconfigs) at h))
    | inr (end, i) ↦ absurd (cc (rw (i, parse_kubeconfigs) at h))
    | inr (field name v fs, i) ↦
        rw i (parse_sources-ok [] (field name v fs) IsNamed-empty (rw (i, parse_kubeconfigs) at h))
  ]

  IsSources-parse_kubeconfigs :
      (raw : Value)
      → IsSources (as_object raw)
      → (out : Map KubeconfigSource) × (parse_kubeconfigs getenv raw ≡ ok out)
  unfolding parse_kubeconfigs
  IsSources-parse_kubeconfigs raw h = elim (Option-cases (as_object raw)) [
    | inl n ↦ absurd (rw n at h)
    | inr (end, i) ↦ absurd (rw i at h)
    | inr (field name v fs, i) ↦
        (let (out, j) = AllHavePath-parse_sources [] (field name v fs) (rw i at h) in
          (out, rw (i, parse_kubeconfigs) j))
  ]

  -- `LoadConfig` accepts a decoded file exactly when `kubeconfigs` is a non-empty object of which
  -- every entry is an object with a text under `path`, whatever the rest of the file holds.
  pub config_of-ok_iff :
      (raw : Fields)
      → ((cfg : AppConfig) × (config_of getenv raw ≡ ok cfg))
        ↔ IsSources (as_object (get raw "kubeconfigs"))
  unfolding config_of
  config_of-ok_iff raw = (
    (λ (cfg, h).
        let (m, first, rest) = bind-ok _ (parse_kubeconfigs getenv (get raw "kubeconfigs")) h in
        (parse_kubeconfigs-ok (get raw "kubeconfigs") first).0),
    (λ h.
        let (m, first) = IsSources-parse_kubeconfigs (get raw "kubeconfigs") h in
        (app_config getenv raw m, rw first)),
  )

  -- In a configuration that `LoadConfig` accepts, each source has the name that is its key.
  pub config_of-named :
      (raw : Fields) (k : String) {cfg : AppConfig} {src : KubeconfigSource}
      → config_of getenv raw ≡ ok cfg
      → lookup k cfg.kubeconfigs ≡ some src
      → src.name ≡ k
  unfolding config_of
  config_of-named raw k {cfg} {src} h l =
      let (m, first, rest) = bind-ok _ (parse_kubeconfigs getenv (get raw "kubeconfigs")) h in
      (parse_kubeconfigs-ok (get raw "kubeconfigs") first).1 k src (cc)

module _ (getenv : String → String) (read_file : String → Result String)
    (unmarshal : String → Result Fields) (home_dir : Result String) where
  -- The file is found, read and decoded, and its sources are ones that are accepted.
  abbrev pub IsLoadable : Type 0
  IsLoadable =
      (path : String) × (content : String) × (raw : Fields) × (config_path getenv home_dir
        ≡ ok path)
      × (read_file path ≡ ok content)
      × (unmarshal content ≡ ok raw)
      × IsSources (as_object (get raw "kubeconfigs"))

  load-IsLoadable :
      (cfg : AppConfig) → load getenv read_file unmarshal home_dir ≡ ok cfg → IsLoadable
  unfolding load load_config
  load-IsLoadable cfg h =
      let (path, p, h1) =
        bind-ok (load_config getenv read_file unmarshal) (config_path getenv home_dir) h in
      let (content, c, h2) = bind-ok _ (noted ("config: reading " ⊕ path) (read_file path)) h1 in
      let (raw, r, h3) =
        bind-ok (config_of getenv) (noted ("config: parsing " ⊕ path) (unmarshal content)) h2 in
      (
        path,
        content,
        raw,
        p,
        noted-ok _ _ c,
        noted-ok _ _ r,
        (config_of-ok_iff getenv raw).0 (cfg, h3),
      )

  IsLoadable-load :
      IsLoadable → (cfg : AppConfig) × (load getenv read_file unmarshal home_dir ≡ ok cfg)
  unfolding load load_config
  IsLoadable-load (path, content, raw, p, c, r, sources) =
      let (cfg, h) = (config_of-ok_iff getenv raw).1 sources in (cfg, rw (p, c, r) h)

  -- `Load` gives a configuration exactly when the path of the file is known, the file can be read and decoded,
  -- and kubeconfigs is a non-empty object of which every entry is an object with a text under path.
  pub load-ok_iff :
      ((cfg : AppConfig) × (load getenv read_file unmarshal home_dir ≡ ok cfg)) ↔ IsLoadable
  load-ok_iff = (λ (cfg, h). load-IsLoadable cfg h, IsLoadable-load)
