-- ===== src/EventSourcing/EventStore/JsonFile/Laws.antt =====
-- The JSON-file store on a disk that works keeps the contract of a store; on a file that is no JSON
-- it fails and writes nothing.
use es_ts_example.Common.{Bool, true, false, ◌≡◌, refl, Option, none, some, List, [], ◌++◌, String}
use es_ts_example.Common.Int.{pos, int_beq_of_eq, int_beq_ne}
use es_ts_example.Effect.{success, failure}
use es_ts_example.EventSourcing.EventStore.{
  StoredEvent, AppendRequest, StreamQuery, store_error, aggregate_version_in_records,
}
use es_ts_example.EventSourcing.EventStore.Contract.{Implements, record_view, added_to}
use es_ts_example.EventSourcing.EventStore.JsonFile.{
  Unknown, FileSystem, Codec, read_json_file_records, write_json_file_records, fetch, append,
  append_after_read, make_json_file_event_store,
}

abbrev pub is_some {ℓ} : {A : Type ℓ} → Option A → Bool
is_some none = false
is_some (some a) = true

-- A disk that works: `contents` is what the file at `path` holds in a state, if it is there.
pub record IsReliable {S : Type 0} (fs : FileSystem S) (path : String)
    (contents : S → Option String) : Type 0 where
  pub exists_tells : (s : S) → fs.exists path s ≡ (success (is_some (contents s)), s)
  pub read_gives :
      (s : S) (text : String)
      → contents s ≡ some text
      → fs.read_file_string path s ≡ (success text, s)
  pub write_succeeds : (s : S) (text : String) → (fs.write_file_string path text s).0 ≡ success tt
  pub write_puts :
      (s : S) (text : String) → contents (fs.write_file_string path text s).1 ≡ some text

-- A codec that reads back what it wrote.
pub record IsFaithful {Event : Type 0} (codec : Codec Event) : Type 0 where
  pub to_json : List (StoredEvent Event) → codec.Json
  pub from_json : List (StoredEvent Event) → codec.Json
  pub encodes :
      (records : List (StoredEvent Event)) → codec.encode records ≡ success (to_json records)
  pub parses :
      (records : List (StoredEvent Event))
      → codec.parse (codec.stringify (to_json records)) ≡ success (from_json records)
  pub decodes :
      (records : List (StoredEvent Event)) → codec.decode (from_json records) ≡ success records

module _ {S Event : Type 0} (codec : Codec Event) (fs : FileSystem S) (path : String) where
  -- The store reads the log from the disk.
  abbrev pub HoldsFile : S → List (StoredEvent Event) → Type 0
  HoldsFile s log = read_json_file_records codec fs path s ≡ (success log, s)

  module _ {contents : S → Option String} (disk : IsReliable fs path contents) where
    -- Before the first append there is no file, and the log is empty.
    pub HoldsFile-nil : (s : S) → contents s ≡ none → HoldsFile s []
    unfolding read_json_file_records
    HoldsFile-nil s h = rw (disk.exists_tells s, h)

    -- A file that is no JSON makes every read of a stream fail, and every append, with the text
    -- "[object Object]" for a message, whatever `JSON.parse` reported; the disk is left as it was.
    pub malformed_file :
        (s : S) (text : String) (error : Unknown) (query : StreamQuery)
        (command : AppendRequest Event)
        → contents s ≡ some text
        → codec.parse text ≡ failure error
        → (fetch codec fs path query s ≡ (failure (record { message = "[object Object]" }), s))
          × (append codec fs path command s
              ≡ (failure (store_error (record { message = "[object Object]" })), s))
    unfolding fetch append read_json_file_records
    malformed_file s text error query command here bad = (
      rw (disk.exists_tells s, here, disk.read_gives s text here, bad),
      rw (disk.exists_tells s, here, disk.read_gives s text here, bad),
    )

    module _ (faithful : IsFaithful codec) where
      -- What is written is what the next read gives.
      pub write_json_file_records_lem :
          (s : S) (records : List (StoredEvent Event))
          → ((write_json_file_records codec fs path records s).0 ≡ success tt)
            × HoldsFile (write_json_file_records codec fs path records s).1 records
      unfolding write_json_file_records read_json_file_records
      write_json_file_records_lem s records =
          let text = codec.stringify (faithful.to_json records) in
          let s' = (fs.write_file_string path text s).1 in
          let puts = disk.write_puts s text in
          let held : HoldsFile s' records = rw (
            disk.exists_tells s',
            puts,
            disk.read_gives s' text puts,
            faithful.parses records,
            faithful.decodes records,
          ) in
          rw (faithful.encodes records) (rw (disk.write_succeeds s text), held)

      -- The second half of an append: a conflict writes nothing; otherwise the file holds the
      -- records that were read, and the new ones behind them.
      append_after_read_stores :
          (s : S) (log : List (StoredEvent Event)) (command : AppendRequest Event)
          → pos (aggregate_version_in_records log command.aggregate_id) ≡ command.expected_version
          → ((append_after_read codec fs path command log s).0 ≡ success (added_to log command))
            × HoldsFile
                (append_after_read codec fs path command log s).1
                (log ++ added_to log command)
      unfolding append_after_read
      append_after_read_stores s log command e =
          let (written, held) = write_json_file_records_lem s (log ++ added_to log command) in
          rw (int_beq_of_eq _ _ e, written) (refl, held)

      -- The JSON-file store, over a disk that works and a codec that reads back what it wrote, is a
      -- store over the log that its file holds.
      pub make_json_file_event_store-Implements :
          Implements (make_json_file_event_store codec fs path) record_view HoldsFile
      unfolding make_json_file_event_store
      make_json_file_event_store-Implements = record {
        fetch_reads = λ s log query h. rw h;
        fetch_all_reads = λ s log query h. rw h;
        append_conflicts = λ s log command h ne. rw (h, int_beq_ne _ _ ne);
        append_stores = λ s log command h e. rw h (append_after_read_stores s log command e);
      }

      -- Two appends that both read the file before either writes it, with versions that match what
      -- they read: both report success, and the file ends without the events of the first.
      pub interleaved_appends :
          (s : S) (log : List (StoredEvent Event)) (first second : AppendRequest Event)
          → pos (aggregate_version_in_records log first.aggregate_id) ≡ first.expected_version
          → pos (aggregate_version_in_records log second.aggregate_id) ≡ second.expected_version
          → let after_first = append_after_read codec fs path first log s in
            let after_second = append_after_read codec fs path second log after_first.1 in
            (after_first.0 ≡ success (added_to log first))
            × (after_second.0 ≡ success (added_to log second))
            × HoldsFile after_second.1 (log ++ added_to log second)
      interleaved_appends s log first second e f =
          let s' = (append_after_read codec fs path first log s).1 in
          let (reported, held) = append_after_read_stores s' log second f in
          ((append_after_read_stores s log first e).0, reported, held)
