-- ===== src/Release/Facts.antt =====
-- The constants of trt-files/scripts/release_assets.py: the facts of the five models, their
-- checkpoints, the class names, and the frozen model pack.
use dfine_cpp.Common.{ℕ, ◌*◌, List, [], ◌∷◌, Text, codes}
use dfine_cpp.Common.Int.{pos}
use dfine_cpp.Json.{
  Value, Items, Fields, finite, integer, real, text, array, nil, item, empty, field,
}
use dfine_cpp.Json.Number.{one}
use dfine_cpp.Release.Manifest.{Entry}

-- SIZES
pub data Size : Type 0 where
  nano small medium large extra : Size

abbrev pub size_name : Size → Text
size_name nano = codes "n"
size_name small = codes "s"
size_name medium = codes "m"
size_name large = codes "l"
size_name extra = codes "x"

abbrev pub whole : ℕ → Value
whole n = integer (pos n)

-- `float(n)` of a small number
abbrev pub float : ℕ → Value
float n = real (finite (pos (n * one)))

abbrev pub items : List Value → Items
items [] = nil
items (v ∷ vs) = item v (items vs)

abbrev pub texts : List Text → Items
texts [] = nil
texts (s ∷ ss) = item (text s) (texts ss)

-- MODEL_FACTS
abbrev facts : ℕ → ℕ → ℕ → ℕ → ℕ → List Value → Fields
facts scale layers index levels hidden strides = field (codes "reg_max") (whole 32) (
    field (codes "reg_scale") (float scale) (
      field (codes "num_decoder_layers") (whole layers) (
        field (codes "eval_idx") (whole index) (
          field (codes "num_levels") (whole levels) (
            field (codes "hidden_dim") (whole hidden)
              (field (codes "feat_strides") (array (items strides)) empty))))))

abbrev pub model_facts : Size → Fields
model_facts nano = facts 4 3 2 2 128 (whole 16 ∷ whole 32 ∷ [])
model_facts small = facts 4 3 2 3 256 (whole 8 ∷ whole 16 ∷ whole 32 ∷ [])
model_facts medium = facts 4 4 3 3 256 (whole 8 ∷ whole 16 ∷ whole 32 ∷ [])
model_facts large = facts 4 6 5 3 256 (whole 8 ∷ whole 16 ∷ whole 32 ∷ [])
model_facts extra = facts 8 6 5 3 256 (whole 8 ∷ whole 16 ∷ whole 32 ∷ [])

-- OFFICIAL_CHECKPOINT_TENSOR_COUNTS
abbrev pub tensor_count : Size → ℕ
tensor_count nano = 674
tensor_count small = 794
tensor_count medium = 1053
tensor_count large = 1173
tensor_count extra = 1441

-- OFFICIAL_CHECKPOINTS
abbrev pub checkpoint_hash : Size → Text
checkpoint_hash nano = codes "a6b913de83520d48bfc0d58d4645b3648662419ca0503b9386fef38548891ff6"
checkpoint_hash small = codes "4d878bf9be3e07bb0092f03ad45366d900bd0fa765c65c2d67ced1b08856182d"
checkpoint_hash medium = codes "c8a5b79d4ed5718dacf5507e366a79c8103e463adf1899cd73f0187cc3d1d253"
checkpoint_hash large = codes "2323fabe153f30f1dc51089cbfd0a88ffe1d1fa0b71baec692b5334a9cabe726"
checkpoint_hash extra = codes "8f46e0a96c51053951a5155b77d280c4a8d003b8e25fe7503127e666b0d152f9"

-- COCO80_NAMES
abbrev pub coco80_names : List Text
coco80_names =
    codes "person"
    ∷ codes "bicycle"
    ∷ codes "car"
    ∷ codes "motorcycle"
    ∷ codes "airplane"
    ∷ codes "bus"
    ∷ codes "train"
    ∷ codes "truck"
    ∷ codes "boat"
    ∷ codes "traffic light"
    ∷ codes "fire hydrant"
    ∷ codes "stop sign"
    ∷ codes "parking meter"
    ∷ codes "bench"
    ∷ codes "bird"
    ∷ codes "cat"
    ∷ codes "dog"
    ∷ codes "horse"
    ∷ codes "sheep"
    ∷ codes "cow"
    ∷ codes "elephant"
    ∷ codes "bear"
    ∷ codes "zebra"
    ∷ codes "giraffe"
    ∷ codes "backpack"
    ∷ codes "umbrella"
    ∷ codes "handbag"
    ∷ codes "tie"
    ∷ codes "suitcase"
    ∷ codes "frisbee"
    ∷ codes "skis"
    ∷ codes "snowboard"
    ∷ codes "sports ball"
    ∷ codes "kite"
    ∷ codes "baseball bat"
    ∷ codes "baseball glove"
    ∷ codes "skateboard"
    ∷ codes "surfboard"
    ∷ codes "tennis racket"
    ∷ codes "bottle"
    ∷ codes "wine glass"
    ∷ codes "cup"
    ∷ codes "fork"
    ∷ codes "knife"
    ∷ codes "spoon"
    ∷ codes "bowl"
    ∷ codes "banana"
    ∷ codes "apple"
    ∷ codes "sandwich"
    ∷ codes "orange"
    ∷ codes "broccoli"
    ∷ codes "carrot"
    ∷ codes "hot dog"
    ∷ codes "pizza"
    ∷ codes "donut"
    ∷ codes "cake"
    ∷ codes "chair"
    ∷ codes "couch"
    ∷ codes "potted plant"
    ∷ codes "bed"
    ∷ codes "dining table"
    ∷ codes "toilet"
    ∷ codes "tv"
    ∷ codes "laptop"
    ∷ codes "mouse"
    ∷ codes "remote"
    ∷ codes "keyboard"
    ∷ codes "cell phone"
    ∷ codes "microwave"
    ∷ codes "oven"
    ∷ codes "toaster"
    ∷ codes "sink"
    ∷ codes "refrigerator"
    ∷ codes "book"
    ∷ codes "clock"
    ∷ codes "vase"
    ∷ codes "scissors"
    ∷ codes "teddy bear"
    ∷ codes "hair drier"
    ∷ codes "toothbrush"
    ∷ []

abbrev frozen : Text → Text → Entry
frozen label hash = record { name = label; digest = hash }

-- FROZEN_MODEL_PACK
abbrev pub frozen_model_pack : List Entry
frozen_model_pack =
    frozen (codes "dfine_l_op19.json")
      (codes "9f982f3cb4b73364d92d48cc76bc861d6a4f015c281822ca7a645ed0d48f257a")
    ∷ frozen (codes "dfine_l_op19.onnx")
        (codes "c3d8f4b3fd71b4b54ae3edd3f80d6841b28c98125c9b848f2c648cd8e4b922d4")
    ∷ frozen (codes "dfine_l_slim.json")
        (codes "b9834387fdd3257fe1e555a4b9505301114b963052a46144d88a8931f81d4ff5")
    ∷ frozen (codes "dfine_l_slim.onnx")
        (codes "6d66358f2dff1ae313dfe31cae61cf9de0a0c0670d355d6cd2e963bd12b7b19a")
    ∷ frozen (codes "dfine_m_op19.json")
        (codes "83c60a44c5e6c9fe14d5c45149f5f43e4db5650c66b2204c9fbfebf3c0946b17")
    ∷ frozen (codes "dfine_m_op19.onnx")
        (codes "902bfdd825e804912d094f78a583753eea89caa14aa4b397775e2136538a87bb")
    ∷ frozen (codes "dfine_m_slim.json")
        (codes "be08d7ac7be7f4733ae87ae0f6de3f2d303ab294ac987f5880a8cb80561453c5")
    ∷ frozen (codes "dfine_m_slim.onnx")
        (codes "0f0b8e9ecafa3112d3f7d983e52809c92514836ee1328b519fe81fe25abc7419")
    ∷ frozen (codes "dfine_n_op19.json")
        (codes "72565d06749fca3c6b811d75372edbb573e98a6f00858708013f77d9b5672c76")
    ∷ frozen (codes "dfine_n_op19.onnx")
        (codes "464bd787ef55ad59a84a948b986152cf75e410e2cd463f2dd03f737a1540ae78")
    ∷ frozen (codes "dfine_n_slim.json")
        (codes "5d7e477e24b392863972961afa1220705a3fa5ed5a611af9228e22c15f2bbc7f")
    ∷ frozen (codes "dfine_n_slim.onnx")
        (codes "dec936afa120cbce3d9d3bd14eb06cdf6fccc3b92f2b44093e459ebbf2a41cbe")
    ∷ frozen (codes "dfine_s_op19.json")
        (codes "29ea4ac444094fed84baf7e2e636d02cf8fe99965dfe27d57065d443647d15df")
    ∷ frozen (codes "dfine_s_op19.onnx")
        (codes "300db0c870f3e7824317d090f4d9447cf619230ac1c3e6fce1b94b9ad25a4d2c")
    ∷ frozen (codes "dfine_s_slim.json")
        (codes "f1e53551596b5ae883cef4093ad2f765818fee82c65a92294a23e7fb9438fcee")
    ∷ frozen (codes "dfine_s_slim.onnx")
        (codes "66c28cb3c2fd700bd97680f4e58f02850fa81112bb85c353bf348806f2e09dc6")
    ∷ frozen (codes "dfine_x_op19.json")
        (codes "d42c28284432f5239904a0d578f0d0738d1148f210d1a07cad441108241d1def")
    ∷ frozen (codes "dfine_x_op19.onnx")
        (codes "2abac2d64e05e90f3d5225e1bf3762e0d1df0f36c059f5fc28f917ad6be405d6")
    ∷ frozen (codes "dfine_x_slim.json")
        (codes "8819a448fe4531fa6d066c65853ffe2f7eae587e73b7690c007cc72e28f9d35d")
    ∷ frozen (codes "dfine_x_slim.onnx")
        (codes "7f5e5d6648914139f54f6d8615fabc396274c402c7d8f2142266496bf8d3446e")
    ∷ []
