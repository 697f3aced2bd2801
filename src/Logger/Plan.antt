-- ===== src/Logger/Plan.antt =====
-- LoggerController.cpp, MQTT_Callback: which bytes of which files an event uploads. All numbers are
-- `unsigned long`s, of 32 bits.
use mzntapp_cpp.Base.{
  ℕ, ◌+◌, ◌-◌, ◌%◌, ◌^◌, ◌≤◌, ◌<◌, ◌≡◌, Bool, true, false, ◌&&◌, arith, ltb, leb, if◌then◌else◌,
}
use Prim.Native.Nat.{min}

abbrev pub add_32 : ℕ → ℕ → ℕ
add_32 a b = (a + b) % 2 ^ 32

abbrev pub sub_32 : ℕ → ℕ → ℕ
sub_32 a b = (a + 2 ^ 32 - b) % 2 ^ 32

-- A part of the current file, and a second part, of the file before it.
pub record Plan : Type 0 where
  pub offset1 : ℕ
  pub size1 : ℕ
  pub two : Bool
  pub offset2 : ℕ
  pub size2 : ℕ

-- The three scenarios: `pre` and `post` bytes around the position `curr` in a file of at most `max`
-- bytes, with `history` finished files.
abbrev pub scenario : ℕ → ℕ → ℕ → ℕ → ℕ → Plan
scenario pre post max curr history =
    if leb pre curr
    then record {
      offset1 = sub_32 curr pre;
      size1 = add_32 pre post;
      two = false;
      offset2 = 0;
      size2 = 1;
    }
    else if leb 2 history
    then record {
      offset1 = 0;
      size1 = add_32 curr post;
      two = true;
      offset2 = add_32 (sub_32 max pre) curr;
      size2 = sub_32 pre (add_32 curr post);
    }
    else record { offset1 = 0; size1 = add_32 curr pre; two = false; offset2 = 0; size2 = 1 }

-- The sanity check.
abbrev pub clamp : ℕ → Plan → Plan
clamp max p = record p {
  size1 = if ltb (sub_32 max p.offset1) p.size1 then sub_32 max p.offset1 else p.size1;
  size2 = if p.two && ltb (sub_32 max p.offset2) p.size2 then sub_32 max p.offset2 else p.size2;
}

unfoldable pub event_plan : ℕ → ℕ → ℕ → ℕ → ℕ → Plan
event_plan pre post max curr history = clamp max (scenario pre post max curr history)

module _ (pre post max curr history : ℕ) (pre_fits : pre ≤ max) (in_file : curr ≤ max)
    (max_fits : max < 2 ^ 31) (sum_fits : curr + pre + post < 2 ^ 31) where
  -- For a position in the file, `pre` not above the size of a file, and sums below 2 ^ 31: each part
  -- that an event uploads lies in its file.
  pub event_plan-inside :
      let p = event_plan pre post max curr history in
      (p.offset1 + p.size1 ≤ max) × ((if p.two then p.offset2 + p.size2 else 0) ≤ max)
  unfolding event_plan
  event_plan-inside = (ground arith, ground arith)

  -- For a position in the file, `pre` not above the size of a file, and sums below 2 ^ 31: with `pre`
  -- bytes before the position in the current file, the first part
  -- runs from `pre` bytes before the position to `post` bytes after it, or to the end of the file.
  -- With less, it starts at the start of the file; where at least two files are finished it runs as
  -- far, and the second part starts as many bytes before the end of the file before as are missing
  -- from `pre`; it ends there when the first part has at least `pre` bytes, and else `post` bytes
  -- before the end. With less and fewer files finished, the first part ends `pre`, not `post`, bytes
  -- after the position, or at the end of the file.
  pub event_plan_lem : event_plan pre post max curr history ≡ (
      if leb pre curr
      then record {
        offset1 = curr - pre;
        size1 = min (curr + post) max - (curr - pre);
        two = false;
        offset2 = 0;
        size2 = 1;
      }
      else if leb 2 history
      then record {
        offset1 = 0;
        size1 = min (curr + post) max;
        two = true;
        offset2 = max - (pre - curr);
        size2 = if leb (curr + post) pre then pre - curr - post else pre - curr;
      }
      else record {
        offset1 = 0;
        size1 = min (curr + pre) max;
        two = false;
        offset2 = 0;
        size2 = 1;
      })
  unfolding event_plan
  event_plan_lem = ground arith
