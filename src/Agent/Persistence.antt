-- ===== src/Agent/Persistence.antt =====
-- internal/agent/lease/types.go: what `load` reads after a `save`, successful or not.
use Prim.Native.String
use cilium_dhcp_wanip_operat.Base.{
  ◌+◌, ◌≡◌, ◌≢◌, refl, sym, ◌∙◌, ap, String, Option, none, some, Text, Result, ok, err, arith,
  length, length-append,
}
use cilium_dhcp_wanip_operat.Base.Action.{continue, wrapping, wrap_result, ◌>>◌}
use cilium_dhcp_wanip_operat.Base.Codes.{codes, codes-append}
use cilium_dhcp_wanip_operat.Base.Dict.{Dict}
use cilium_dhcp_wanip_operat.Agent.State.{Lease, FileReply, contents, no_file, unreadable, Host}
use cilium_dhcp_wanip_operat.Agent.Store.{save_leases, parse_state, load}

abbrev pub reply_of : {D : Type 0} → Option D → FileReply D
reply_of none = no_file
reply_of (some text) = contents text

-- A disk whose files can be read: a write changes its file alone, a rename that fails changes
-- nothing, and what was marshalled is unmarshalled again.
pub record DiskLaws {W L D : Type 0} (h : Host W L D) (file : W → String → Option D) : Type 0 where
  pub reads : (path : String) (w : W) → (h.read_state path w).0 ≡ reply_of (file w path)
  pub wrote :
      (path : String) (text : D) (w : W) (u : Unit {0})
      → (h.write_state path text w).0 ≡ ok u
      → file (h.write_state path text w).1 path ≡ some text
  pub wrote_only :
      (path : String) (text : D) (other : String) (w : W)
      → path ≢ other
      → file (h.write_state path text w).1 other ≡ file w other
  pub renamed :
      (old new : String) (w : W) (u : Unit {0})
      → (h.rename old new w).0 ≡ ok u
      → file (h.rename old new w).1 new ≡ file w old
  pub not_renamed :
      (old new : String) (w : W) (e : Text)
      → (h.rename old new w).0 ≡ err e
      → file (h.rename old new w).1 new ≡ file w new
  pub decodes : (m : Dict Lease) (text : D) → h.marshal m ≡ ok text → h.unmarshal text ≡ ok m

tmp-differs : (f : String) → String.◌++◌ f ".tmp" ≢ f
tmp-differs f e =
    let l : length (codes f) + 4 ≡ length (codes f) =
      sym (length-append (codes f) (codes ".tmp"))
      ∙ ap length (sym (codes-append f ".tmp"))
      ∙ ap (λ s. length (codes s)) e in
    omega (arith, l)

module _ {W L D : Type 0} (h : Host W L D) {file : W → String → Option D}
    (laws : DiskLaws h file) where
  parse_reply : (r : FileReply D) (w v : W) → (parse_state h (r, v)).0 ≡ (parse_state h (r, w)).0
  unfolding parse_state
  parse_reply (contents text) w v = refl
  parse_reply no_file w v = refl
  parse_reply (unreadable e) w v = refl

  load_reply : (f : String) (w : W) → (load h f w).0 ≡ (parse_state h (reply_of (file w f), w)).0
  unfolding load
  load_reply f w =
      parse_reply (h.read_state f w).0 w (h.read_state f w).1
      ∙ ap (λ r. (parse_state h (r, w)).0) (laws.reads f w)

  -- Reading the file depends on the file alone.
  load-file : (f : String) (w v : W) → file v f ≡ file w f → (load h f v).0 ≡ (load h f w).0
  load-file f w v e =
      load_reply f v
      ∙ parse_reply (reply_of (file v f)) w v
      ∙ ap (λ o. (parse_state h (reply_of o, w)).0) e
      ∙ sym (load_reply f w)

  -- The file after a save: the leases, or what it was.
  abbrev Saved : String → Dict Lease → W → Result (Unit {0}) × W → Type 0
  Saved f m w (ok u, v) = (text : D) × (h.marshal m ≡ ok text) × (file v f ≡ some text)
  Saved f m w (err e, v) = file v f ≡ file w f

  rename-Saved :
      (f : String) (m : Dict Lease) (w v : W) (text : D)
      → h.marshal m ≡ ok text
      → file v (String.◌++◌ f ".tmp") ≡ some text
      → file v f ≡ file w f
      → (r : Result (Unit {0})) → (h.rename (String.◌++◌ f ".tmp") f v).0 ≡ r
      → Saved f m w
          (wrap_result "failed to rename temp file: %w" r, (h.rename (String.◌++◌ f ".tmp") f v).1)
  rename-Saved f m w v text c tmp same (ok u) d = (text, c, laws.renamed _ f v u d ∙ tmp)
  rename-Saved f m w v text c tmp same (err e) d = laws.not_renamed _ f v e d ∙ same

  write-Saved :
      (f : String) (m : Dict Lease) (w : W) (text : D)
      → h.marshal m ≡ ok text
      → (r : Result (Unit {0})) → (h.write_state (String.◌++◌ f ".tmp") text w).0 ≡ r
      → Saved f m w (
          continue
            (
              wrap_result "failed to write temp file: %w" r,
              (h.write_state (String.◌++◌ f ".tmp") text w).1,
            )
            (λ u. wrapping "failed to rename temp file: %w" (h.rename (String.◌++◌ f ".tmp") f)))
  write-Saved f m w text c (ok u) d =
      let v = (h.write_state (String.◌++◌ f ".tmp") text w).1 in
      rename-Saved f m w v text c (laws.wrote _ text w u d)
        (laws.wrote_only _ text f w (tmp-differs f)) (h.rename (String.◌++◌ f ".tmp") f v).0 refl
  write-Saved f m w text c (err e) d = laws.wrote_only _ text f w (tmp-differs f)

  marshal-Saved :
      (f : String) (m : Dict Lease) (w : W) (r : Result D)
      → h.marshal m ≡ r
      → Saved f m w (
          continue
            (wrap_result "failed to marshal leases: %w" r, w)
            (λ text.
              wrapping "failed to write temp file: %w" (h.write_state (String.◌++◌ f ".tmp") text)
              >> wrapping "failed to rename temp file: %w" (h.rename (String.◌++◌ f ".tmp") f)))
  marshal-Saved f m w (ok text) c =
      write-Saved f m w text c (h.write_state (String.◌++◌ f ".tmp") text w).0 refl
  marshal-Saved f m w (err e) c = refl

  save-Saved : (f : String) (m : Dict Lease) (w : W) → Saved f m w (save_leases h f m w)
  unfolding save_leases
  save-Saved f m w = marshal-Saved f m w (h.marshal m) refl

  -- What is read after a save.
  abbrev pub Reloads : String → Dict Lease → W → Result (Unit {0}) × W → Type 0
  Reloads f m w (ok u, v) = (load h f v).0 ≡ ok m
  Reloads f m w (err e, v) = (load h f v).0 ≡ (load h f w).0

  Saved-Reloads :
      (f : String) (m : Dict Lease) (w : W) (r : Result (Unit {0}) × W)
      → Saved f m w r
      → Reloads f m w r
  unfolding parse_state
  Saved-Reloads f m w (ok u, v) (text, c, s) =
      load_reply f v
      ∙ ap (λ o. (parse_state h (reply_of o, v)).0) s
      ∙ ap (wrap_result "failed to unmarshal leases: %w") (laws.decodes m text c)
  Saved-Reloads f m w (err e, v) s = load-file f w v s

  -- On a disk that keeps the files that are not written: a save replaces the file as a whole or not at all: if it succeeds, loading gives exactly the leases that were saved, and if it fails at any step, loading gives what it gave before.
  pub load-save : (f : String) (m : Dict Lease) (w : W) → Reloads f m w (save_leases h f m w)
  load-save f m w = Saved-Reloads f m w (save_leases h f m w) (save-Saved f m w)
