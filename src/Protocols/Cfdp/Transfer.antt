-- ===== src/Protocols/Cfdp/Transfer.antt =====
-- A file sent in segments from one store and written to another is the file.
use mathlib.Core.List.{append_assoc, append-nil}
use oresat_c3_software.Prelude.{
  ℕ, ◌≤◌, ◌<◌, String, List, [], ◌∷◌, ◌++◌, ◌≡◌, refl, sym, ap, subst, ◌∙◌, if◌then◌else◌, arith,
  true, some, length, str_eq_self, Result, ok, ◌>>◌, pure, >>-ok, lookup, contains, lookup-insert,
}
use oresat_c3_software.Protocols.CacheStore.{
  CacheStore, Method, put, StoreError, read_data, write_data, write_at,
}
use oresat_c3_software.Protocols.CacheStore.Upload.{Segment, chunk, written, Covered, written_lem}
use oresat_c3_software.Protocols.Cfdp.Handlers.{
  Request, FileData, Source, SourceMethod, prepare_file_data_pdu,
}

-- The packets of the segments, one after the other.
abbrev pub send : List Segment → CacheStore → SourceMethod
send [] vfs = pure tt
send (seg ∷ segs) vfs = prepare_file_data_pdu seg.start seg.size vfs >> send segs vfs

-- The writes of the packets to a file.
abbrev pub receive : String → List FileData → Method (Unit {0})
receive file [] = pure tt
receive file (pdu ∷ pdus) = write_data file pdu.file_data (some pdu.offset) >> receive file pdus

abbrev pub pdus_of : List ℕ → List Segment → List FileData
pdus_of content [] = []
pdus_of content (seg ∷ segs) =
    record { file_data = chunk content seg; offset = seg.start } ∷ pdus_of content segs

wrote :
    (file : String) (bytes : List ℕ) (offset : ℕ) (raw : List ℕ) (s : CacheStore)
    → contains s.data' file ≡ true
    → lookup file s.disk ≡ some raw
    → write_data file bytes (some offset) s ≡ (ok tt, put file (write_at offset bytes raw) s)
unfolding write_data
wrote file bytes offset raw s inside there = ground arith

module _ (content : List ℕ) (vfs : CacheStore) (file : String) where
  prepared :
      (seg : Segment) (h : Source) (request : Request)
      → h.put_req ≡ some request
      → request.source_file ≡ some file
      → contains vfs.data' file ≡ true
      → lookup file vfs.disk ≡ some content
      → prepare_file_data_pdu seg.start seg.size vfs h ≡ (
        ok tt,
        record h {
          packets = h.packets ++ record { file_data = chunk content seg; offset = seg.start } ∷ [];
        },
      )
  unfolding prepare_file_data_pdu read_data
  prepared seg h request asked named inside there = ground arith

  -- The source with packets more.
  abbrev with_packets : Source → List FileData → Source
  with_packets h pdus = record h { packets = h.packets ++ pdus }

  send_lem :
      (segs : List Segment) (h : Source) (request : Request)
      → h.put_req ≡ some request
      → request.source_file ≡ some file
      → contains vfs.data' file ≡ true
      → lookup file vfs.disk ≡ some content
      → send segs vfs h ≡ (ok tt, with_packets h (pdus_of content segs))
  send_lem [] h request asked named inside there =
      ap (λ p. (ok tt, record h { packets = p })) (sym (append-nil h.packets))
  send_lem (seg ∷ segs) h request asked named inside there =
      >>-ok (prepare_file_data_pdu seg.start seg.size vfs) (send segs vfs) h
        (with_packets h (one ∷ [])) (prepared seg h request asked named inside there)
      ∙ (send_lem segs (with_packets h (one ∷ [])) request asked named inside there
          ∙ ap (λ p. (ok tt, record h { packets = p }))
              (append_assoc h.packets (one ∷ []) (pdus_of content segs)))
    where
      one : FileData
      one = record { file_data = chunk content seg; offset = seg.start }

  receive_lem :
      (segs : List Segment) (dest_file : String) (raw : List ℕ) (s : CacheStore)
      → contains s.data' dest_file ≡ true
      → lookup dest_file s.disk ≡ some raw
      → ((receive dest_file (pdus_of content segs) s).0 ≡ ok tt)
        × (lookup dest_file (receive dest_file (pdus_of content segs) s).1.disk
            ≡ some (written content segs raw))
  receive_lem [] dest_file raw s inside there = (refl, there)
  receive_lem (seg ∷ segs) dest_file raw s inside there =
      subst
        (λ (r : Result StoreError (Unit {0}) × CacheStore).
          (r.0 ≡ ok tt)
          × (lookup dest_file r.1.disk
              ≡ some (written content segs (write_at seg.start bytes raw))))
        (sym (
          >>-ok (write_data dest_file bytes (some seg.start))
            (receive dest_file (pdus_of content segs)) s t
            (wrote dest_file bytes seg.start raw s inside there)))
        (receive_lem segs dest_file (write_at seg.start bytes raw) t inside (
          lookup-insert dest_file dest_file (write_at seg.start bytes raw) s.disk
          ∙ ap (λ b. if b then some (write_at seg.start bytes raw) else lookup dest_file s.disk)
              (str_eq_self dest_file)))
    where
      bytes : List ℕ
      bytes = chunk content seg

      t : CacheStore
      t = put dest_file (write_at seg.start bytes raw) s

  -- Segments of a file that together cover it, in any order and also more than once, are all made
  -- into packets, and the writes of the packets to a file of another store, which is not longer,
  -- all succeed and make it into a copy.
  pub transfer_lem :
      (segs : List Segment) (h : Source) (request : Request) (dest_file : String) (raw : List ℕ)
      (s : CacheStore)
      → h.put_req ≡ some request
      → request.source_file ≡ some file
      → contains vfs.data' file ≡ true
      → lookup file vfs.disk ≡ some content
      → contains s.data' dest_file ≡ true
      → lookup dest_file s.disk ≡ some raw
      → length raw ≤ length content
      → ((j : ℕ) → j < length content → Covered content segs j)
      → (pdus : List FileData) × (send segs vfs h
          ≡ (ok tt, record h { packets = h.packets ++ pdus }))
        × ((receive dest_file pdus s).0 ≡ ok tt)
        × (lookup dest_file (receive dest_file pdus s).1.disk ≡ some content)
  transfer_lem segs h request dest_file raw s asked named inside there inside' there' short
        covered =
      (
        pdus_of content segs,
        send_lem segs h request asked named inside there,
        (receive_lem segs dest_file raw s inside' there').0,
        (receive_lem segs dest_file raw s inside' there').1
            ∙ ap (λ c. some c) (written_lem content segs raw short covered),
      )
