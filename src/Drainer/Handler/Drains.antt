-- ===== src/Drainer/Handler/Drains.antt =====
-- What `drainer` does to its stream.
use mercado.Redis.Commands.{stream_read_entries}
use mercado.Prelude.Results.{Result, ok, Result-cases, err}
use mercado.Drainer.Handler.Loop.{
  Handles, Stops, handled, run, unreadable, none_left, refused, process_entries-prefix,
}
use mercado.Redis.Fred.{Entries}
use mercado.Drainer.Handler.{
  drain_read, execute_query, Result, parse_stream_entries, DrainerError, ok, process_entries,
  drainer, after_read, read_from_stream, Machine, on_world, pick_job, err,
}
use mercado.Drainer.Handler.Laws.{StreamLaws, HasDistinctIds}
use mercado.Drainer.Streams.{DrainerStore, read_from_stream}
use mercado.Errors.{DatabaseError, DrainerError}
use mercado.Prelude.Exec.{Exec}
use mercado.Drainer.Entries.{StreamCodec, StreamData}
use mercado.Prelude.{
  String, ◌≡◌, refl, ℕ, take, ◌++◌, ◌∷◌, [], arith, drop, ◌∙◌, sym, take-append-drop, ap, ◌≤◌, some,
  inl, inr, List, str_eq_refl,
}
use mercado.Drainer.Handler.Loop.{at_end, unreadable, refused, handled, none_left}
use mercado.Drainer.Handler.Trim.{trim_processed-IsTrimmed}
use mathlib.Core.Path.{subst}
use mathlib.Core.List.{append_assoc}

module _ {W Op DbResult : Type 0} (codec : StreamCodec Op)
    (execute : Op → Exec W DatabaseError DbResult) (store : DrainerStore W)
    (laws : StreamLaws execute store) (stream : String) where
  run-keeps :
      (stream_data : StreamData Op) (w : W)
      → laws.entries (run codec execute stream_data w).1 stream ≡ laws.entries w stream
  unfolding execute_query
  run-keeps stream_data w = ground (arith, laws.execute_keeps stream_data.typed_sql w stream)

  Handles-keeps :
      {w w' : W} {es : Entries String}
      → Handles codec execute w es w'
      → laws.entries w' stream ≡ laws.entries w stream
  Handles-keeps none_left = refl
  Handles-keeps (handled {w = w} sd e h rest) = Handles-keeps rest ∙ run-keeps sd w

  Stops-keeps :
      {w w' : W} {es : Entries String}
      → Stops codec execute w es w'
      → laws.entries w' stream ≡ laws.entries w stream
  Stops-keeps at_end = refl
  Stops-keeps (unreadable x e) = refl
  Stops-keeps (refused {w = w} sd x e e2 h) = run-keeps sd w

  Handles-prefix :
      (gone kept : Entries String) {w w' : W}
      → Handles codec execute w (gone ++ kept) w'
      → (w1 : W) × Handles codec execute w gone w1
  Handles-prefix [] kept h = (_, none_left)
  Handles-prefix (x ∷ gone) kept (handled sd e h rest) =
      let (w1, run) = Handles-prefix gone kept rest in (w1, handled sd e h run)

  abbrev pub first_entries : ℕ → W → Entries String
  first_entries n w = take n (laws.entries w stream)

  -- A read, the handled entries that were removed and were not, and the rest.
  abbrev pub IsDrained : ℕ → W → Result DrainerError (Unit {0}) → W → Type 0
  IsDrained n w r w' =
      (gone : Entries String) × (kept : Entries String) × (rest : Entries String) × (w1 : W)
      × (w2 : W) × (first_entries n w ≡ (gone ++ kept) ++ rest)
      × Handles codec execute w (gone ++ kept) w1
      × Stops codec execute w1 rest w2
      × (laws.entries w' stream ≡ kept ++ (rest ++ drop n (laws.entries w stream)))
      × (r ≡ ok tt → kept ≡ [])

  drain_read-IsDrained :
      (n : ℕ) (w : W)
      → HasDistinctIds (laws.entries w stream)
      → let (r, w') = drain_read codec execute store stream ((stream, first_entries n w) ∷ []) w in
        IsDrained n w r w'
  unfolding drain_read parse_stream_entries
  drain_read-IsDrained n w ids =
      let (front, rest, w1, split, handles, last_is, stops) =
        process_entries-prefix codec execute (first_entries n w) "" w in
      let w2 : W = (process_entries codec execute (first_entries n w) "" w).1 in
      let whole : laws.entries w2 stream ≡ front ++ (rest ++ drop n (laws.entries w stream)) =
        Stops-keeps stops
        ∙ Handles-keeps handles
        ∙ sym (take-append-drop n (laws.entries w stream))
        ∙ ap (λ x. x ++ drop n (laws.entries w stream)) split
        ∙ append_assoc front rest (drop n (laws.entries w stream)) in
      let (gone, kept, parts, left, all) =
        trim_processed-IsTrimmed execute store laws stream front
          (rest ++ drop n (laws.entries w stream)) w2
          (subst HasDistinctIds (sym (Stops-keeps stops ∙ Handles-keeps handles)) ids) whole in
      rw (str_eq_refl stream, last_is)
        (
          gone,
          kept,
          rest,
          w1,
          w2,
          split ∙ ap (λ x. x ++ rest) parts,
          subst (λ es. Handles codec execute w es w1) parts handles,
          stops,
          left,
          all,
        )

  read_from_stream-read :
      (n : ℕ) (w : W) {read : List (String × Entries String)}
      → 1 ≤ n
      → (read_from_stream store stream n w).0 ≡ ok read
      → read ≡ (stream, first_entries n w) ∷ []
  unfolding read_from_stream stream_read_entries
  read_from_stream-read n w h e =
      elim (Result-cases (store.redis_conn.pool.xread_map (some n) stream "0-0" w).0) [
        | inl (read, e1) ↦ ground (arith, laws.read_first n stream w h e1)
        | inr (x, e1) ↦ ground arith
      ]

  read_from_stream-keeps :
      (n : ℕ) (w : W)
      → laws.entries (read_from_stream store stream n w).1 stream ≡ laws.entries w stream
  unfolding read_from_stream stream_read_entries
  read_from_stream-keeps n w = ground (arith, laws.read_keeps (some n) stream "0-0" w stream)

  -- For a read count of at least 1, and a stream with distinct ids that are not empty: if the read fails,
  -- `drainer` does no more. Otherwise the entries that it read begin with ones that are handled in order,
  -- each executed or refused for a unique constraint, up to an entry that cannot be read or executed, if
  -- there is one; only handled entries are removed from the stream, a first part of them, and all of them
  -- if `drainer` succeeds; the other entries stay in order.
  pub drainer-IsDrained :
      (n : ℕ) (m : Machine W)
      → 1 ≤ n
      → HasDistinctIds (laws.entries m.world stream)
      → let (r, m') = drainer codec execute store n stream m in
        let (read, w) = read_from_stream store stream n m.world in
        (laws.entries w stream ≡ laws.entries m.world stream)
        × ((entries : List (String × Entries String))
            → read ≡ ok entries
            → IsDrained n w r m'.world)
        × ((e : DrainerError) → read ≡ err e → m'.world ≡ w)
  unfolding drainer after_read on_world pick_job
  drainer-IsDrained n m h ids =
      let w : W = (read_from_stream store stream n m.world).1 in
      let first : first_entries n m.world ≡ first_entries n w =
        ap (take n) (sym (read_from_stream-keeps n m.world)) in
      (
        read_from_stream-keeps n m.world,
        λ entries e.
            let is_first =
              read_from_stream-read n m.world h e ∙ ap (λ es. (stream, es) ∷ []) first in
            rw (e ∙ ap ok is_first) (
              drain_read-IsDrained n w
                (subst HasDistinctIds (sym (read_from_stream-keeps n m.world)) ids)),
        λ x e. rw e refl,
      )
