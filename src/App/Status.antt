-- ===== src/App/Status.antt =====
-- app/status.py
use text.Mathlib.Text.{◌==◌ as eq_str}
use notifications_template_p.Prelude.{String, if◌then◌else◌, not}
use notifications_template_p.Python.Errors.{Result, ok, ◌>>=◌}
use notifications_template_p.App.Http.{Request, Response, plain, versions, success, arg_or}

-- `subprocess.check_output(command, shell=True).decode("utf-8")`, and the constants of app/version.py,
-- which the build writes.
pub record Machine : Type 0 where
  pub check_output : String → Result String
  pub git_commit : String
  pub build_time : String

module _ (machine : Machine) where
  abbrev get_imagemagick_version : Result String
  get_imagemagick_version = machine.check_output "convert -version"

  abbrev get_ghostscript_version : Result String
  get_ghostscript_version = machine.check_output "gs --version"

  -- `_status`
  unfoldable pub status : Request → Result Response
  status request =
      if not (eq_str (arg_or "simple" "" request) "") then ok (success (plain "ok")) else (do
        ghostscript ← get_ghostscript_version
        imagemagick ← get_imagemagick_version
        ok (
            success (
              versions (record {
                commit = machine.git_commit;
                build_time = machine.build_time;
                ghostscript_version = ghostscript;
                imagemagick_version = imagemagick;
              }))))
