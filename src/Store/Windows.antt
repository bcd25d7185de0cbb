-- ===== src/Store/Windows.antt =====
-- internal/store/atomic_windows.go: `writeStateAtomic` as a sequence of system calls on the two files
-- that it touches, with every folder that the sequence passes through.
use mcp_chain.Base.{Bytes, Option, none, some, List, [], ◌∷◌, ◌++◌}
use mcp_chain.Store.Errors.{
  Result, ok, err, Call, failed, create_temp, write_temp, sync_temp, close_temp, chmod_temp, rename,
}

-- What stands under a name: no file, a file that holds a part of a document, a document that the
-- operating system has not brought to the medium yet, and one that it has.
pub data Content (Doc : Type 0) : Type 0 where
  missing partial : Content Doc
  cached synced : Doc → Content Doc

-- The state file and the temporary file of the call, which has a name that no other file has.
pub record Folder (Doc : Type 0) : Type 0 where
  pub target : Content Doc
  pub temp : Content Doc

-- What the operating system answers to each system call.
pub record Answers : Type 0 where
  pub create_error : Option Bytes
  pub write_error : Option Bytes
  pub sync_error : Option Bytes
  pub close_error : Option Bytes
  pub chmod_error : Option Bytes
  pub rename_error : Option Bytes
  pub remove_error : Option Bytes

-- The result of the call, the folder behind it, and the folders on the way.
pub record Run (Doc : Type 0) : Type 0 where
  pub outcome : Result (Unit {0})
  pub final : Folder Doc
  pub passed : List (Folder Doc)

module _ {Doc : Type 0} where
  abbrev pub stop : Result (Unit {0}) → Folder Doc → Run Doc
  stop r f = record { outcome = r; final = f; passed = f ∷ [] }

  -- A system call: with an error the function returns and leaves `broken`; otherwise it goes on.
  abbrev pub calling : Call → Option Bytes → Folder Doc → Run Doc → Run Doc
  calling call (some e) broken rest = stop (err (failed call e)) broken
  calling call none broken rest = record rest { passed = broken ∷ rest.passed }

  -- `defer os.Remove(tmpPath)`, whose error is dropped.
  abbrev pub remove_temp : Option Bytes → Folder Doc → Folder Doc
  remove_temp none f = record f { temp = missing }
  remove_temp (some e) f = f

  abbrev pub deferring_remove : Answers → Run Doc → Run Doc
  deferring_remove answers run = record {
    outcome = run.outcome;
    final = remove_temp answers.remove_error run.final;
    passed = run.passed ++ (remove_temp answers.remove_error run.final ∷ []);
  }

  -- `os.Rename(tmpPath, path)`, which replaces the target at once.
  abbrev pub renamed : Folder Doc → Folder Doc
  renamed f = record { target = f.temp; temp = missing }

  -- `tmp.Write(data)` and what follows it.
  unfoldable pub fill_and_rename : Answers → Doc → Content Doc → Run Doc
  fill_and_rename answers doc old =
      let created : Folder Doc = record { target = old; temp = partial } in
      let filled : Folder Doc = record { target = old; temp = cached doc } in
      let flushed : Folder Doc = record { target = old; temp = synced doc } in
      calling write_temp answers.write_error created (
        calling sync_temp answers.sync_error filled (
          calling close_temp answers.close_error flushed (
            calling chmod_temp answers.chmod_error flushed
              (calling rename answers.rename_error flushed (stop (ok tt) (renamed flushed))))))

  -- `writeStateAtomic` of the data over the old content.
  unfoldable pub windows_write : Answers → Doc → Content Doc → Run Doc
  unfolding fill_and_rename
  windows_write answers doc old =
      calling create_temp answers.create_error (record { target = old; temp = missing })
        (deferring_remove answers (fill_and_rename answers doc old))

  -- What is left of a file if the power fails.
  abbrev pub after_crash : Content Doc → Content Doc
  after_crash (cached doc) = partial
  after_crash missing = missing
  after_crash partial = partial
  after_crash (synced doc) = synced doc
