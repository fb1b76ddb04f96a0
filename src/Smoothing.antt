-- ===== src/Smoothing.antt =====
-- `smooth_speakers_in_scenes` of src/dubbing_pipeline/diarization/smoothing.py: a short turn between two
-- turns of one other speaker is given to that speaker. Times are in milliseconds and the confidence in
-- thousandths; an utterance has its `start`, its `end` and its `speaker`, and perhaps a confidence.
pub mod Report
mod Examples
use dubbing_pipeline.Base.{
  ℕ, suc, zero, ◌+◌, ◌-◌, ◌*◌, Bool, true, false, not, ◌&&◌, ◌||◌, List, [], ◌∷◌, Option, none,
  some, Text, text_eq, is_empty, leb, ltb, ◌==◌, length, if◌then◌else◌,
}

pub record Utterance : Type 0 where
  pub start : ℕ
  pub end_ : ℕ
  pub speaker : Text
  pub speaker_original : Option Text
  pub conf : Option ℕ

pub record Scene : Type 0 where
  pub start : ℕ
  pub end_ : ℕ

-- Its `reason` is always "micro_turn_surrounded".
pub record SmoothingChange : Type 0 where
  pub start : ℕ
  pub end_ : ℕ
  pub speaker_from : Text
  pub speaker_to : Text

-- `(start, end)` of one before that of the other
abbrev pub earlier : Utterance → Utterance → Bool
earlier a b =
    if ltb a.start b.start then true else if ltb b.start a.start then false else ltb a.end_ b.end_

unfoldable pub insert_by_time : Utterance → List Utterance → List Utterance
insert_by_time u [] = u ∷ []
insert_by_time u (x ∷ xs) =
    let later = insert_by_time u xs in if earlier x u then x ∷ later else u ∷ x ∷ xs

-- `sorted`, which is stable
unfoldable pub sort_by_time : List Utterance → List Utterance
sort_by_time [] = []
sort_by_time (u ∷ us) = insert_by_time u (sort_by_time us)

scene_from : ℕ → ℕ → List Scene → ℕ → ℕ
scene_from i last [] t = last
scene_from i last (sc ∷ scenes) t =
    let rest = scene_from (suc i) last scenes t in
    if leb sc.start t && ltb t sc.end_ then i else rest

-- `_scene_index`; the last scene where none holds the time
unfoldable pub scene_index : List Scene → ℕ → ℕ
unfolding scene_from
scene_index scenes t = scene_from 0 (length scenes - 1) scenes t

abbrev pub is_unsure : Option ℕ → Bool
is_unsure none = false
is_unsure (some conf) = ltb conf 500

abbrev pub given_to : Text → Utterance → Utterance
given_to speaker u = record u { speaker = speaker; speaker_original = some u.speaker }

abbrev pub change_of : Text → Utterance → SmoothingChange
change_of speaker u = record {
  start = u.start;
  end_ = u.end_;
  speaker_from = u.speaker;
  speaker_to = speaker;
}

module _ (scenes : List Scene) (min_turn surround_gap : ℕ) where
  -- Whether the turn in the middle goes to the speaker around it.
  unfoldable pub merges : Utterance → Utterance → Utterance → Bool
  merges prev u nxt =
      let dur = u.end_ - u.start in
      let si = scene_index scenes u.start in
      not (dur == 0)
      && ((scene_index scenes prev.start == si && scene_index scenes nxt.start == si)
          && ((not (is_empty u.speaker)
                && (not (is_empty prev.speaker) && not (is_empty nxt.speaker)))
              && (text_eq prev.speaker nxt.speaker
                  && (not (text_eq u.speaker prev.speaker)
                      && ((leb (u.start - prev.end_) surround_gap
                            && leb (nxt.start - u.end_) surround_gap)
                          && (ltb dur min_turn
                              || (is_unsure u.conf && ltb (dur * 2) (min_turn * 3))))))))

  -- The loop, from the utterance after `prev` on; an utterance that was changed is the next one's
  -- `prev`.
  unfoldable pub smooth_from : Utterance → List Utterance → List Utterance × List SmoothingChange
  smooth_from prev [] = ([], [])
  smooth_from prev (u ∷ []) = (u ∷ [], [])
  smooth_from prev (u ∷ nxt ∷ rest) =
      let changed = smooth_from (given_to prev.speaker u) (nxt ∷ rest) in
      let kept = smooth_from u (nxt ∷ rest) in
      if merges prev u nxt
      then (given_to prev.speaker u ∷ changed.0, change_of prev.speaker u ∷ changed.1)
      else (u ∷ kept.0, kept.1)

  unfoldable pub smooth_sorted : List Utterance → List Utterance × List SmoothingChange
  unfolding smooth_from
  smooth_sorted [] = ([], [])
  smooth_sorted (u ∷ us) = let r = smooth_from u us in (u ∷ r.0, r.1)

  unfoldable pub smooth_speakers_in_scenes : List Utterance → List Utterance × List SmoothingChange
  unfolding smooth_sorted
  smooth_speakers_in_scenes utts = smooth_sorted (sort_by_time utts)
