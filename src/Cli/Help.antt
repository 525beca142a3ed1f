-- ===== src/Cli/Help.antt =====
-- The help text (src/cli_args.cpp).
use ee_eq_cli.Common.{String, ◌<>◌}
use ee_eq_cli.Cli.{default_preset_env}

pub cli_help_text : String → String
cli_help_text name =
    "Usage: " <> name <> " [options]\n"
    <> "Headless PipeWire DSP runner for EasyEffects-compatible presets.\n" <> "\n" <> "Daemon:\n"
    <> "      " <> name <> " daemon start [--preset <path>] [--sink <name>]\n" <> "      " <> name
    <> " status\n" <> "      " <> name <> " doctor\n" <> "      " <> name <> " health\n" <> "      "
    <> name <> " current-sink\n" <> "      " <> name <> " apply <preset> [--sink <name>]\n"
    <> "      " <> name <> " enable\n" <> "      " <> name <> " disable\n" <> "      " <> name
    <> " bypass on|off\n" <> "      " <> name <> " volume <0.0-1.5>\n" <> "      " <> name
    <> " list-sinks\n" <> "      " <> name <> " switch-sink <name-or-serial>\n" <> "      " <> name
    <> " shutdown\n" <> "\n" <> "Standalone:\n"
    <> "  -p, --preset <path>    EasyEffects EQ preset path.\n" <> "      --convert-autoeq <file>\n"
    <> "                        Convert an AutoEQ parametric EQ text file to EasyEffects JSON.\n"
    <> "  -o, --output <path>    Write converted JSON to a file instead of stdout.\n"
    <> "  -s, --sink <sink>      Target sink by node name or serial.\n"
    <> "  -d, --dry-run          Validate preset, resolve plugins/kernels, print what would be applied, and exit.\n"
    <> "      --list-sinks       List current PipeWire output sinks and exit.\n"
    <> "  -h, --help             Display this help and exit.\n"
    <> "  -v, --version          Display version information and exit.\n" <> "\n"
    <> "Environment:\n" <> "      " <> default_preset_env
    <> "  Fallback local preset path when --preset is omitted\n"
    <> "          (standalone mode and daemon start bootstrap only).\n"
