-- ===== src/Store/RoundTrip.antt =====
-- What `Store::add` of src/store.rs adds, `Store::read`, `Store::find` and `Store::verify` answer
-- with afterwards.
use immure.Prelude.{ℕ, ◌*◌, ◌≤◌, ◌≡◌, true, some, List, arith}
use immure.FilePath.{FilePath}
use immure.Error.{ok}
use immure.Digest.Types.{Digest, hex_len, len}
use immure.Digest.{Hashes, hash}
use immure.Digest.Parse.{IsDigest}
use immure.Digest.Hashing.{IsHashes, hash-IsDigest}
use immure.Layout.{as_u8}
use immure.World.{Node, at, World}
use immure.World.Calls.{read_file_calm}
use immure.Cipher.Opener.Chunks.{IsAead}
use immure.Store.{Builder, Store, build, form, fresh, exists, Entry, Status, find}
use immure.Store.Codec.{Build}
use immure.Store.Check.{read, verify}
use immure.Store.Content.{IsZstd, CanSeal}
use immure.Store.Write.{add}
use immure.Store.Adding.{IsReady, dest_of}
use immure.Store.Stored.{IsStored, write-IsStored}
use immure.Store.Present.{locate-only, open_entry-only}
use immure.Store.Built.{names_of, can_write, deep_enough, long_hex}
use immure.Store.Answers.{
  add_fresh, add_known, digest_known, entry_for, find_known, locate-none, named_there, read_known,
  verify_known,
}

module _ {S : Type 0} (h : Hashes S) (hashes : IsHashes h) (b : Build) (sound : IsZstd b.zstd)
    (laws : IsAead b.aead) (bld : Builder) (s : Store) (first : ℕ)
    (run : build b.features bld ≡ ok (s, first)) (bytes : List ℕ) where
  abbrev pub its_digest : Digest
  its_digest = hash h s.algorithm bytes

  pub valid : IsDigest its_digest
  valid = (hash-IsDigest h hashes s.algorithm bytes).0

  pub own : len its_digest ≡ hex_len s.algorithm
  own = (hash-IsDigest h hashes s.algorithm bytes).1

  deep : s.layout.depth * 2 ≤ len its_digest
  deep = deep_enough b bld s first run its_digest own

  pub add-IsStored :
      (w : World)
      → CanSeal b (form s) bytes w
      → IsReady b s its_digest w
      → (after : World) × (add h b s bytes w ≡ (ok (fresh, entry_for h b s its_digest), after))
        × IsStored h b s its_digest bytes w after
  add-IsStored w seals ready =
      let (after, written, done) =
        write-IsStored h b s sound laws its_digest bytes w (names_of b bld s first run) valid
          (omega (arith, own, long_hex s.algorithm)) deep (can_write b bld s first run) seals
          ready in
      (
        after,
        add_fresh h b s bytes w after (locate-none s its_digest w ready.calm own deep ready.absent)
            written,
        done,
      )

  pub stored_read :
      (w after : World)
      → IsStored h b s its_digest bytes w after
      → (read h b s its_digest after).0 ≡ ok (some bytes)
  stored_read w after done =
      read_known h b s its_digest bytes done.stored (form s) (dest_of h b s its_digest) after _
        (open_entry-only s its_digest (form s) done.stored done.flag done.time after done.calm
          done.there done.absent h b own deep)
        done.decodes

  -- For a store that `build` made, hash functions, a zstd and a cipher that do what they
  -- document, a content short enough to seal with a nonce to draw, and a world in which
  -- nothing is in the way of a new entry (IsReady): `add` answers that the content is new,
  -- with the entry of its hash at the path of the form that the store writes; `read` of the
  -- hash then gives the content back; and whatever lay under a path before still lies there.
  pub add-read :
      (w : World)
      → CanSeal b (form s) bytes w
      → IsReady b s its_digest w
      → (after : World) × (add h b s bytes w ≡ (
        ok (fresh, record { digest = its_digest; path = dest_of h b s its_digest; form = form s }),
        after,
      ))
        × ((read h b s its_digest after).0 ≡ ok (some bytes))
        × ((q : FilePath) (n : Node) → at q w.fs ≡ some n → at q after.fs ≡ some n)
  add-read w seals ready =
      let (after, run_add, done) = add-IsStored w seals ready in
      (after, run_add, stored_read w after done, done.kept)

  -- Under the same conditions as for `add-read`: adding a content that is new and adding it
  -- once more answers the second time that it exists, with the same entry, and then only the
  -- form that is tried first has been set.
  pub add-add :
      (w : World)
      → CanSeal b (form s) bytes w
      → IsReady b s its_digest w
      → (after : World) × (add h b s bytes w ≡ (
        ok (fresh, record { digest = its_digest; path = dest_of h b s its_digest; form = form s }),
        after,
      ))
        × (add h b s bytes after ≡ (
          ok (
            exists,
            record { digest = its_digest; path = dest_of h b s its_digest; form = form s },
          ),
          record after { first_form = as_u8 (form s) },
        ))
  add-add w seals ready =
      let (after, run_add, done) = add-IsStored w seals ready in
      (
        after,
        run_add,
        add_known h b s bytes after (record after { first_form = as_u8 (form s) })
            (dest_of h b s its_digest) (form s)
            (locate-only s its_digest (form s) done.stored done.flag done.time after done.calm
              done.there done.absent own deep),
      )

  -- Under the same conditions as for `add-read`: after `add`, `verify` of the entry that it
  -- gave answers true, and `find` of the entry's digest gives the entry's path.
  pub add-verify :
      (w : World)
      → CanSeal b (form s) bytes w
      → IsReady b s its_digest w
      → (status : Status) × (e : Entry) × (after : World) × (add h b s bytes w
          ≡ (ok (status, e), after))
        × ((verify h b s e after).0 ≡ ok true)
        × ((find s e.digest after).0 ≡ ok (some e.path))
  add-verify w seals ready =
      let (after, run_add, done) = add-IsStored w seals ready in
      (
        fresh,
        entry_for h b s its_digest,
        after,
        run_add,
        verify_known h b s (entry_for h b s its_digest) after own (
            digest_known h b s its_digest (form s) (dest_of h b s its_digest) bytes done.stored
              after
              (read_file_calm (dest_of h b s its_digest) done.stored done.flag done.time after
                done.calm done.there)
              (named_there h b s its_digest (form s) (names_of b bld s first run) valid)
              done.decodes),
        find_known h b s its_digest (dest_of h b s its_digest) (form s) after _ (
            locate-only s its_digest (form s) done.stored done.flag done.time after done.calm
              done.there done.absent own deep),
      )
