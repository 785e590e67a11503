-- ===== src/Ocr/Baidu/Provider.antt =====
-- `BaiduProvider.extract_lines` (src/ocr_engine/ocr/baidu.py), in both modes, and `build_provider`
-- (src/ocr_engine/ocr/registry.py).
pub mod Raised
pub mod Exchange
pub mod Sorted
pub mod Failures
use ocr.Base.{Bool, true, false, Option, none, some, List}
use ocr.Settings.{Settings, Provider, baidu_aistudio, paddleocr_local, BaiduMode, sync, async}
use ocr.Extraction.Schema.{Line}
use ocr.Pipeline.Outcome.{
  Exception, Outcome, ok, raise, ◌>>=◌, on_raise, provider_transient, http_error, timeout_error,
  other,
}
use ocr.Pipeline.Inspect.{Bytes, Mime}
use ocr.Ocr.Json.{Json}
use ocr.Ocr.Baidu.{Conversions, extract_sync, normalize_layout_parsing}
use ocr.Ocr.Baidu.Requests.{Client, layout_request}
use ocr.Ocr.Baidu.Jobs.{extract_async}

-- The `except` clauses of `extract_lines`.
abbrev pub wrapped : Exception → Exception
wrapped (http_error m) = provider_transient m
wrapped (timeout_error m) = provider_transient m
wrapped e = e

module _ (py : Conversions) (s : Settings) where
  abbrev pub normalized : Option (Outcome Json) → Option (Outcome (List Line))
  normalized none = none
  normalized (some raw) = some (on_raise raw wrapped >>= normalize_layout_parsing py)

  -- `_extract_sync`
  unfoldable pub send_sync : Client → Bytes → Mime → Outcome Json
  unfolding extract_sync
  send_sync c content mime =
      layout_request s content mime >>= λ request. c.send 0 request >>= extract_sync py

  unfoldable pub exchange : BaiduMode → Client → Bytes → Mime → Option (Outcome Json)
  unfolding extract_async send_sync
  exchange async c content mime = extract_async py s c content mime
  exchange sync c content mime = some (send_sync c content mime)

  -- `extract_lines`; `none` where the loop of the asynchronous mode has not ended.
  unfoldable pub extract_lines : Client → Bytes → Mime → Option (Outcome (List Line))
  unfolding exchange normalize_layout_parsing
  extract_lines c content mime = normalized (exchange s.baidu_mode c content mime)

  -- `build_provider`: the provider of a client, or a `NotImplementedError`.
  abbrev pub provider_of : Provider → Outcome (Client → Bytes → Mime → Option (Outcome (List Line)))
  provider_of baidu_aistudio = ok extract_lines
  provider_of paddleocr_local = raise (
      other
        "paddleocr_local is not implemented yet - the model path lands once the VPS can host the weights; use OCR_PROVIDER=baidu_aistudio")

  unfoldable pub build_provider : Outcome (Client → Bytes → Mime → Option (Outcome (List Line)))
  unfolding extract_lines
  build_provider = provider_of s.provider
