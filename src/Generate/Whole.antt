-- ===== src/Generate/Whole.antt =====
-- What `edward generate` writes where there was no configuration, of edward/generate.go and generators/.
use edward.Base.Text.{Text}
use edward.Config.{Config}
