-- ===== src/Storage/Found.antt =====
-- `Save` and then `FindByAgent`.
use ac_cli.Prelude.{
  String, ◌≡◌, ◌≢◌, refl, sym, ap, ◌∙◌, Bool, true, false, none, List, arith, ◌==◌, if◌then◌else◌,
  string_eq, nat_eq, list_eq, list_beq_iff, All, inl, inr, Bool-cases, Option-cases, beq_self,
}
use ac_cli.Storage.Base64.{Bytes, IsByte}
use ac_cli.Storage.Utf8.{is_utf8, KeepsUtf8}
use ac_cli.Storage.Components.{filename_component, value_from_component, value-component}
use ac_cli.Storage.Credentials.{
  Layout, current, legacy, unknown, find_with, load_file, credential_from_file, unsecured, failed,
  write_file, is_incomplete, layout_error, save_error, Credential, Tree, written, ok, err, Result,
  Error, Replaced, Stored, directory_mismatch, recode, file_with, load_agent, save_loaded,
  save_credential, find_by_agent, document,
}

err_ok : {e : Error} → let r : Result (Unit {0}) = err e in r ≢ ok tt
err_ok h = ground arith

component_injective :
    (a b : Bytes)
    → All IsByte a
    → All IsByte b
    → filename_component a ≡ filename_component b
    → a ≡ b
component_injective a b ha hb e =
    ap (λ (x : Bytes × Bool). x.0)
      (sym (value-component a ha) ∙ ap value_from_component e ∙ value-component b hb)

-- The state of the agents' files after a save that succeeded.
pub record IsSaved (json : Bytes → Bytes) (c : Credential) (t v : Tree) : Type 0 where
  pub layout : v.layout ≡ t.layout
  pub stored : v.file (filename_component c.agent_id) ≡ document (recode json (file_with c))
  pub others : (d : Bytes) → d ≢ filename_component c.agent_id → v.file d ≡ t.file d

written-IsSaved :
    (json : Bytes → Bytes) (c : Credential) (t : Tree)
    → let dir = filename_component c.agent_id in
      IsSaved json c t (record t {
        file = λ d. if d == dir then document (recode json (file_with c)) else t.file d;
      })
written-IsSaved json c t =
    let dir = filename_component c.agent_id in
    record {
      layout = refl;
      stored = rw (beq_self dir) refl;
      others = λ d n. ground (arith, list_beq_iff d dir);
    }

save_loaded-IsSaved :
    (json : Bytes → Bytes) (replaced : Replaced) (c : Credential)
    (loaded : Result (List (Bytes × Credential))) (t : Tree)
    → (save_loaded json replaced c loaded t).0 ≡ ok tt
    → IsSaved json c t (save_loaded json replaced c loaded t).1
unfolding save_loaded
save_loaded-IsSaved json replaced c (err e) t h = ground arith
save_loaded-IsSaved json replaced c (ok agents) t h =
    elim (Option-cases (save_error c.agent_id agents)) [
      | inr (e, bad) ↦ absurd (err_ok (rw (bad, save_loaded) at h))
      | inl good ↦ rw (good, save_loaded) (write replaced (rw (good, save_loaded) at h))
    ]
  where
    dir : Bytes
    dir = filename_component c.agent_id

    write :
        (r : Replaced)
        → (write_file json r dir (file_with c) t).0 ≡ ok tt
        → IsSaved json c t (write_file json r dir (file_with c) t).1
    write written e = written-IsSaved json c t
    write unsecured e = absurd (err_ok e)
    write failed e = absurd (err_ok e)

save_credential-IsSaved :
    (json : Bytes → Bytes) (made : Bool) (replaced : Replaced) (c : Credential) (t : Tree)
    → (save_credential json made replaced c t).0 ≡ ok tt
    → IsSaved json c t (save_credential json made replaced c t).1
      × (is_incomplete c ≡ false)
      × (layout_error t.layout ≡ none)
unfolding save_credential
save_credential-IsSaved json made replaced c t h = elim (Bool-cases (is_incomplete c)) [
  | inl bad ↦ absurd (err_ok (rw (bad, save_credential) at h))
  | inr good ↦ elim (Option-cases (layout_error t.layout)) [
    | inr (e, old) ↦ absurd (err_ok (rw (good, old, save_credential) at h))
    | inl new ↦ elim (Bool-cases made) [
      | inr lost ↦ absurd (err_ok (rw (good, new, lost, save_credential) at h))
      | inl ready ↦
          rw (good, new, ready, save_credential)
            (
              save_loaded-IsSaved json replaced c
                  (load_agent (t.file (filename_component c.agent_id))) t
                  (rw (good, new, ready, save_credential) at h),
              refl,
              refl,
            )
    ]
  ]
]

-- What a search makes of the file that a save writes: the credential, if its ID was kept.
find_with_saved :
    (json : Bytes → Bytes) (c : Credential) (layout : Layout)
    → layout_error layout ≡ none
    → json c.agent_id ≡ c.agent_id
    → find_with c.workstream_code c.agent_id layout (document (recode json (file_with c))) ≡ ok c
unfolding load_file credential_from_file
find_with_saved json c current h kept = rw kept (
    ground (
      arith,
      beq_self c.agent_id,
      beq_self c.workstream_code,
      beq_self (filename_component c.agent_id),
    ))
find_with_saved json c legacy h kept = ground arith
find_with_saved json c unknown h kept = ground arith

-- If the ID was changed, the file is not that of its directory.
find_with_changed :
    (json : Bytes → Bytes) (c : Credential) (layout : Layout)
    → layout_error layout ≡ none
    → (filename_component (json c.agent_id) == filename_component c.agent_id) ≡ false
    → find_with c.workstream_code c.agent_id layout (document (recode json (file_with c)))
      ≡ err directory_mismatch
unfolding load_file credential_from_file
find_with_changed json c current h other = ground (arith, beq_self (json c.agent_id), other)
find_with_changed json c legacy h other = ground arith
find_with_changed json c unknown h other = ground arith

changed_name :
    (json : Bytes → Bytes) (id : Bytes)
    → All IsByte id
    → All IsByte (json id)
    → json id ≢ id
    → (filename_component (json id) == filename_component id) ≡ false
changed_name json id bytes recoded changed =
    elim (Bool-cases (filename_component (json id) == filename_component id)) [
      | inr other ↦ other
      | inl same ↦
          absurd
            (changed (component_injective (json id) id recoded bytes ((list_beq_iff _ _).0 same)))
    ]

find_stored :
    (c : Credential) (v : Tree) (stored : Stored) (r : Result Credential)
    → v.file (filename_component c.agent_id) ≡ stored
    → find_with c.workstream_code c.agent_id v.layout stored ≡ r
    → find_by_agent c.workstream_code c.agent_id v ≡ r
unfolding find_by_agent
find_stored c v stored r here found =
    ap (λ s. find_with c.workstream_code c.agent_id v.layout s) here ∙ found

find_same :
    (workstream : String) (id : Bytes) (t v : Tree)
    → v.layout ≡ t.layout
    → v.file (filename_component id) ≡ t.file (filename_component id)
    → find_by_agent workstream id v ≡ find_by_agent workstream id t
unfolding find_by_agent
find_same workstream id t v layout file =
    ap (λ l. find_with workstream id l (v.file (filename_component id))) layout
    ∙ ap (λ s. find_with workstream id t.layout s) file

-- Where JSON keeps texts in UTF-8, then after a save that succeeded the credential of an agent whose ID is
-- UTF-8 is found in its workstream, exactly as it was saved; where an ID is changed by JSON, the search
-- for it fails, since the file is not that of its directory. What is found for any other agent, in any
-- workstream, is what was found before.
pub find-save_credential :
    (json : Bytes → Bytes) (made : Bool) (replaced : Replaced) (c : Credential) (t : Tree)
    → KeepsUtf8 json
    → All IsByte c.agent_id
    → (save_credential json made replaced c t).0 ≡ ok tt
    → let v = (save_credential json made replaced c t).1 in
      (is_utf8 c.agent_id ≡ true → find_by_agent c.workstream_code c.agent_id v ≡ ok c)
      × (json c.agent_id ≢ c.agent_id
          → All IsByte (json c.agent_id)
          → find_by_agent c.workstream_code c.agent_id v ≡ err directory_mismatch)
      × ((workstream : String) (id : Bytes)
          → All IsByte id
          → id ≢ c.agent_id
          → find_by_agent workstream id v ≡ find_by_agent workstream id t)
find-save_credential json made replaced c t keeps bytes h =
    let (s, _, new) = save_credential-IsSaved json made replaced c t h in
    let v = (save_credential json made replaced c t).1 in
    let current_layout : layout_error v.layout ≡ none = ap layout_error s.layout ∙ new in
    (
      λ utf8.
          find_stored c v _ _ s.stored
            (find_with_saved json c v.layout current_layout (keeps c.agent_id utf8)),
      λ changed recoded. find_stored c v _ _ s.stored (
          find_with_changed json c v.layout current_layout
            (changed_name json c.agent_id bytes recoded changed)),
      λ workstream id its n. find_same workstream id t v s.layout (
          s.others (filename_component id)
            (λ e. n (component_injective id c.agent_id its bytes e))),
    )
