-- ===== src/Store/WindowsLaws.antt =====
-- A crash during the write on Windows, and its outcomes.
use mcp_chain.Base.{
  ap, sym, ◌∙◌, ◌↔◌, Option-cases, ◌≡◌, refl, Bytes, Option, none, some, All, All-append, inl, inr,
  ◌⊎◌,
}
use mcp_chain.Store.Errors.{
  ok, err, Call, failed, create_temp, write_temp, sync_temp, close_temp, chmod_temp, rename,
}
use mcp_chain.Store.Disk.{Disk, Env, write_state_atomic}
use mcp_chain.Store.Windows.{
  partial, cached, Content, missing, synced, Folder, Answers, Run, calling, remove_temp,
  fill_and_rename, windows_write, after_crash,
}

All-calling :
    {Doc : Type 0} (P : Folder Doc → Type 0) (call : Call) (e : Option Bytes) (broken : Folder Doc)
    (rest : Run Doc)
    → P broken
    → All P rest.passed
    → All P (calling call e broken rest).passed
All-calling P call none broken rest p h = (p, h)
All-calling P call (some e) broken rest p h = (p, tt)

module _ {Doc : Type 0} (answers : Answers) (doc : Doc) (old : Content Doc) where
  -- A crash in this folder leaves the old content or the whole new one.
  abbrev pub Recovers : Folder Doc → Type 0
  Recovers f = (after_crash f.target ≡ old) ⊎ (after_crash f.target ≡ synced doc)

  -- An error with the old content in place, or success with the new one.
  abbrev pub Finishes : Run Doc → Type 0
  Finishes run =
      ((call : Call) × (text : Bytes) × (run.outcome ≡ err (failed call text))
        × (run.final.target ≡ old))
      ⊎ ((run.outcome ≡ ok tt) × (run.final.target ≡ synced doc))

  Finishes-calling :
      (call : Call) (e : Option Bytes) (broken : Folder Doc) (rest : Run Doc)
      → broken.target ≡ old
      → Finishes rest
      → Finishes (calling call e broken rest)
  Finishes-calling call none broken rest p h = h
  Finishes-calling call (some e) broken rest p h = inl (call, e, refl, p)

  fill_and_rename-Recovers :
      after_crash old ≡ old → All Recovers (fill_and_rename answers doc old).passed
  unfolding fill_and_rename
  fill_and_rename-Recovers safe =
      All-calling Recovers write_temp answers.write_error _ _ (inl safe) (
        All-calling Recovers sync_temp answers.sync_error _ _ (inl safe) (
          All-calling Recovers close_temp answers.close_error _ _ (inl safe) (
            All-calling Recovers chmod_temp answers.chmod_error _ _ (inl safe)
              (All-calling Recovers rename answers.rename_error _ _ (inl safe) (inr refl, tt)))))

  fill_and_rename-Finishes : Finishes (fill_and_rename answers doc old)
  unfolding fill_and_rename
  fill_and_rename-Finishes = Finishes-calling write_temp answers.write_error _ _ refl (
      Finishes-calling sync_temp answers.sync_error _ _ refl (
        Finishes-calling close_temp answers.close_error _ _ refl (
          Finishes-calling chmod_temp answers.chmod_error _ _ refl
            (Finishes-calling rename answers.rename_error _ _ refl (inr (refl, refl))))))

target-remove_temp :
    {Doc : Type 0} (e : Option Bytes) (f : Folder Doc) → (remove_temp e f).target ≡ f.target
target-remove_temp none f = refl
target-remove_temp (some e) f = refl

-- What a reader finds under the name, if it is no torn file: nothing, or a document.
abbrev pub view : {Doc : Type 0} → Content Doc → Option (Disk Doc)
view missing = some none
view partial = none
view (cached doc) = some (some doc)
view (synced doc) = some (some doc)

module _ {Doc : Type 0} (answers : Answers) (doc : Doc) (old : Content Doc) where
  windows_write-Finishes : Finishes answers doc old (windows_write answers doc old)
  unfolding windows_write
  windows_write-Finishes =
      let inner = fill_and_rename answers doc old in
      let kept = target-remove_temp answers.remove_error inner.final in
      Finishes-calling answers doc old create_temp answers.create_error _ _ refl
        (elim (fill_and_rename-Finishes answers doc old) [
          | inl (call, text, failing, same) ↦ inl (call, text, failing, kept ∙ same)
          | inr (fine, new) ↦ inr (fine, kept ∙ new)
        ])

  -- If the power fails at any point of the write on Windows, before it, between two of its system calls
  -- or behind it, and the old content was on the medium, then the state file has the old content or the
  -- whole new one; so it has where system calls fail.
  pub windows_write-Recovers :
      after_crash old ≡ old → All (Recovers answers doc old) (windows_write answers doc old).passed
  unfolding windows_write
  windows_write-Recovers safe =
      let P = Recovers answers doc old in
      let inner = fill_and_rename answers doc old in
      let kept = target-remove_temp answers.remove_error inner.final in
      let behind : P (remove_temp answers.remove_error inner.final) =
        elim (fill_and_rename-Finishes answers doc old) [
          | inl (_, _, _, same) ↦ inl (ap after_crash (kept ∙ same) ∙ safe)
          | inr (_, new) ↦ inr (ap after_crash (kept ∙ new))
        ] in
      All-calling P create_temp answers.create_error _ _ (inl safe)
        (All-append P inner.passed _ (fill_and_rename-Recovers answers doc old safe) (behind, tt))

  -- The write on Windows refines the write of the other systems. Where there was no file or a whole
  -- document before, a reader finds no torn file behind the write, whatever system calls have failed, but
  -- what `write_state_atomic` leaves for some answer of the operating system; and that reports success
  -- where the write on Windows does.
  pub windows_write_refines :
      (env : Env) (disk : Disk Doc)
      → view old ≡ some disk
      → (w : Option Bytes) × (view (windows_write answers doc old).final.target
          ≡ some (write_state_atomic (record env { write_error = w }) doc disk).1)
        × (((windows_write answers doc old).outcome ≡ ok tt)
            ↔ ((write_state_atomic (record env { write_error = w }) doc disk).0 ≡ ok tt))
  unfolding write_state_atomic
  windows_write_refines env disk whole = elim windows_write-Finishes [
    | inl (call, text, failing, same) ↦ (
      some text,
      ap view same ∙ whole,
      (λ fine. absurd (cc (sym failing, fine)), λ fine. absurd (cc (fine))),
    )
    | inr (fine, new) ↦ (none, ap view new, (λ _. refl, λ _. fine))
  ]

  -- Where the removal of the temporary file does not fail, the write on Windows leaves none behind,
  -- whatever else fails.
  pub windows_write_cleans :
      answers.remove_error ≡ none → (windows_write answers doc old).final.temp ≡ missing
  unfolding windows_write
  windows_write_cleans removes = elim (Option-cases answers.create_error) [
    | inl fine ↦ rw (fine, removes) refl
    | inr (text, failing) ↦ rw failing refl
  ]
