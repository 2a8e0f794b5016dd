-- ===== src/DirCompare/Fanout.antt =====
-- CompareOutputStreams gives each of its streams what that stream would get alone.
-- src/dir_compare.cpp.
use dupa.Base.{List, [], ◌∷◌, ◌≡◌, refl, ◌∙◌, ap}
use dupa.Conf.{GlobalConfig}
use dupa.DirCompare.Index.{MultiIndex}
use dupa.DirCompare.Streams.{CompareOutputStream, compare_output_streams, each_stream}
use dupa.DirCompare.{dir_compare}
use dupa.DirCompare.Reports.{
  Report, overwritten_by, copied_from, rename_to, content_changed, removed, new_file, emit, replay,
  reports, dir_compare-replay,
}

module _ {S T : Type 0} where
  -- A stream that acts on one part of the state, as standard output or as the database.
  abbrev pub on_left : CompareOutputStream S → CompareOutputStream (S × T)
  on_left x = record {
    overwritten_by = λ f cs s. (x.overwritten_by f cs s.0, s.1);
    copied_from = λ f cs s. (x.copied_from f cs s.0, s.1);
    rename_to = λ f cs s. (x.rename_to f cs s.0, s.1);
    content_changed = λ f s. (x.content_changed f s.0, s.1);
    removed = λ f s. (x.removed f s.0, s.1);
    new_file = λ f s. (x.new_file f s.0, s.1);
  }

  abbrev pub on_right : CompareOutputStream T → CompareOutputStream (S × T)
  on_right x = record {
    overwritten_by = λ f cs s. (s.0, x.overwritten_by f cs s.1);
    copied_from = λ f cs s. (s.0, x.copied_from f cs s.1);
    rename_to = λ f cs s. (s.0, x.rename_to f cs s.1);
    content_changed = λ f s. (s.0, x.content_changed f s.1);
    removed = λ f s. (s.0, x.removed f s.1);
    new_file = λ f s. (s.0, x.new_file f s.1);
  }

  abbrev pub both : CompareOutputStream S → CompareOutputStream T → CompareOutputStream (S × T)
  both x y = compare_output_streams (on_left x ∷ on_right y ∷ [])

  module _ (x : CompareOutputStream S) (y : CompareOutputStream T) where
    emit-both : (r : Report) (s : S) (t : T) → emit (both x y) r (s, t) ≡ (emit x r s, emit y r t)
    unfolding compare_output_streams each_stream
    emit-both (overwritten_by f cs) s t = refl
    emit-both (copied_from f cs) s t = refl
    emit-both (rename_to f cs) s t = refl
    emit-both (content_changed f) s t = refl
    emit-both (removed f) s t = refl
    emit-both (new_file f) s t = refl

    replay-both :
        (rs : List Report) (s : S) (t : T)
        → replay (both x y) rs (s, t) ≡ (replay x rs s, replay y rs t)
    replay-both [] s t = refl
    replay-both (r ∷ rs) s t =
        ap (replay (both x y) rs) (emit-both r s t) ∙ replay-both rs (emit x r s) (emit y r t)

    -- A comparison written to two streams at once leaves each as a comparison of its own would.
    pub dir_compare-both :
        (mi : MultiIndex) (conf : GlobalConfig) (hashes1 hashes2 : mi.PathHashes) (s : S) (t : T)
        → dir_compare mi conf (both x y) hashes1 hashes2 (s, t)
          ≡ (dir_compare mi conf x hashes1 hashes2 s, dir_compare mi conf y hashes1 hashes2 t)
    dir_compare-both mi conf hashes1 hashes2 s t =
        rw
          (
            dir_compare-replay mi conf hashes1 hashes2 x s,
            dir_compare-replay mi conf hashes1 hashes2 y t,
          )
          (dir_compare-replay mi conf hashes1 hashes2 (both x y) (s, t)
            ∙ replay-both (reports mi conf hashes1 hashes2) s t)
