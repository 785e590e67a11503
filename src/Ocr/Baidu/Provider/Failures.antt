-- ===== src/Ocr/Baidu/Provider/Failures.antt =====
-- How `extract_lines` (src/ocr_engine/ocr/baidu.py) fails.
use ocr.Base.Tests.{nat_eq}
use ocr.Base.Text.{Text}
use ocr.Settings.{Settings}
use ocr.Pipeline.Outcome.{Outcome}
use ocr.Ocr.Json.{Json}
use ocr.Ocr.Baidu.Provider.Raised.{
  http_failed, malformed, transport, failed, http_failed, malformed, transport, failed,
}
