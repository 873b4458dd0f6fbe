-- ===== src/Release/Onnx.antt =====
-- `_validate_onnx` of trt-files/scripts/release_assets.py, on what the onnx library tells of a graph.
use dfine_cpp.Common.{
  ℕ, Bool, not, Option, none, some, List, [], ◌∷◌, ◌++◌, Text, codes, text_eq, all, map, ◌&&◌, ◌==◌,
  if◌then◌else◌,
}
use dfine_cpp.Common.Result.{Result, failed, system_exit, ◌>>◌, refuse_if}
use dfine_cpp.Json.{Value, Fields, array, text, get}
use dfine_cpp.Json.Same.{same}
use dfine_cpp.Release.Names.{within}
use dfine_cpp.Release.Facts.{whole, items}

-- What the onnx library tells of a graph that it accepts: values are given by name, with whether
-- they are FP32 and with their shape.
pub record GraphValue : Type 0 where
  pub name : Text
  pub is_float : Bool
  pub shape : Value

pub record Graph : Type 0 where
  pub opset : ℕ
  pub inputs : List GraphValue
  pub outputs : List GraphValue
  pub has_grid_sample : Bool
  pub has_fp16 : Bool

abbrev value_names : List GraphValue → List Text
value_names vs = map (λ (v : GraphValue). v.name) vs

abbrev same_names : List Text → List Text → Bool
same_names xs ys = within xs ys && within ys xs

abbrev expected_shape : Fields → Text → Value
expected_shape meta n =
    if text_eq n (codes "images")
    then array (
        items (
          text (codes "N")
          ∷ whole 3
          ∷ get (codes "input_h") meta
          ∷ get (codes "input_w") meta
          ∷ []))
    else if text_eq n (codes "logits")
    then get (codes "logits_shape") meta
    else get (codes "boxes_shape") meta

abbrev fits : Fields → GraphValue → Bool
fits meta v = v.is_float && same v.shape (expected_shape meta v.name)

unfoldable pub validate_onnx : Option Graph → Fields → Bool → Result (Unit {0})
validate_onnx none meta fp16 = failed system_exit
validate_onnx (some g) meta fp16 = do
  refuse_if (not (g.opset == 19)) system_exit
  refuse_if
      (not (
        same_names (value_names g.inputs) (codes "images" ∷ [])
        && same_names (value_names g.outputs) (codes "logits" ∷ codes "boxes" ∷ [])))
      system_exit
  refuse_if (not (all (fits meta) (g.inputs ++ g.outputs))) system_exit
  refuse_if g.has_grid_sample system_exit
  refuse_if (fp16 && not g.has_fp16) system_exit
  refuse_if (not fp16 && g.has_fp16) system_exit
